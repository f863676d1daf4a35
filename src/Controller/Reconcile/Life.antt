-- ===== src/Controller/Reconcile/Life.antt =====
-- internal/controller: the passes of Reconcile over the life of a process, for any pools, with what the
-- cache does in between.
use podpool_controller.Prelude.{
  ℕ, Bool, true, false, Option, none, some, List, [], ◌∷◌, String, ◌≡◌, refl, sym, subst, ap, ◌∙◌,
  inl, inr, at, remove, arith,
}
use podpool_controller.Workload.Object.{Gvk}
use podpool_controller.Controller.Errors.{Error}
use podpool_controller.Controller.Sweep.{same_kind}
use podpool_controller.Controller.Watch.{
  WatchCall, removed_informer, asked_watch, InformerAnswer, no_informer, informer, ensure_watch,
}
use podpool_controller.Controller.Watch.Instances.{Ledger, IsSound, handlers_of, dropped-IsSound}
use podpool_controller.Controller.Watch.Reach.{
  World, ledger, serve, accepted, performed, after_call, served-IsSound, outcome-IsSound,
}
use podpool_controller.Controller.Reconcile.{Libraries, Answers, Memory, Pass}
use podpool_controller.Controller.Reconcile.Run.{reconcile}
use podpool_controller.Controller.Reconcile.OneCall.{call_of, reconcile-IsOneCall}

module _ (gvk_text : Gvk → String) (watch : Gvk → ℕ → Option Error) where
  accepted-ledger :
      (gvk : Gvk) (inf : ℕ) (o : Option Error) (v w : World)
      → ledger v ≡ ledger w
      → ledger (accepted gvk inf o v) ≡ ledger (accepted gvk inf o w)
  accepted-ledger gvk inf none v w e =
      ap {A = Ledger} {B = Ledger} (λ l. record l { handlers = (gvk, inf) ∷ Ledger.handlers l }) e
  accepted-ledger gvk inf (some x) v w e = e

  -- What the calls do to the ledger depends on the ledger alone.
  performed-ledger :
      (calls : List WatchCall) (v w : World)
      → ledger v ≡ ledger w
      → ledger (performed gvk_text watch calls v) ≡ ledger (performed gvk_text watch calls w)
  performed-ledger [] v w e = e
  performed-ledger (removed_informer gvk ∷ calls) v w e =
      performed-ledger calls (record v { current = remove same_kind gvk v.current })
        (record w { current = remove same_kind gvk w.current })
        (ap {A = Ledger} {B = Ledger}
          (λ l. record l { current = remove same_kind gvk (Ledger.current l) }) e)
  performed-ledger (asked_watch gvk inf ∷ calls) v w e =
      performed-ledger calls (accepted gvk inf (watch gvk inf) v)
        (accepted gvk inf (watch gvk inf) w) (accepted-ledger gvk inf (watch gvk inf) v w e)

-- The cache gives the instance that it has.
abbrev pub Serves : World → Gvk → InformerAnswer → Type 0
Serves w gvk (no_informer e) = Unit
Serves w gvk (informer inf is_stopped has_synced) = at same_kind gvk w.current ≡ some inf

module _ (libs : Libraries) where
  -- The calls of the pass take effect, and its memory stays.
  abbrev pub after_pass : Answers → Pass → World → World
  after_pass ans p w =
      performed libs.gvk_text ans.watch p.calls (record w { watches = p.memory.watches })

  -- The passes of a process from its start, with the memory that the one before left of the watches;
  -- the instances that the cache starts, for a pass or for a read, and those that it loses.
  pub data Life : World → Type 0 where
    born : Life record {
      current = [];
      next = 0;
      handlers = [];
      watches = record { states = []; pending_since = []; failure_emitted = [] };
    }
    passed :
        {w : World}
        → Life w
        → (ans : Answers) (namespace name : String) (mem : Memory) → mem.watches ≡ w.watches
        → ((gvk : Gvk) → Serves w gvk (ans.informer gvk))
        → Life (after_pass ans (reconcile libs ans namespace name mem) w)
    begun : {w : World} → Life w → (gvk : Gvk) → Life (serve gvk w).1
    lost :
        {w : World}
        → Life w
        → (gvk : Gvk) → Life (record w { current = remove same_kind gvk w.current })

  call-IsSound :
      (ans : Answers) (has_controller : Bool) (gvk : Gvk) (answer : InformerAnswer) (now : ℕ)
      (w : World)
      → IsSound (ledger w)
      → Serves w gvk answer
      → IsSound (
          ledger (
            after_call libs.gvk_text ans.watch w
              (ensure_watch libs.gvk_text ans.watch has_controller gvk answer now w.watches)))
  unfolding ensure_watch
  call-IsSound ans false gvk answer now w sound here = sound
  call-IsSound ans true gvk (no_informer e) now w sound here = sound
  call-IsSound ans true gvk (informer inf is_stopped has_synced) now w sound here =
      outcome-IsSound libs.gvk_text ans.watch gvk is_stopped has_synced now inf w sound here

  pub passed-IsSound :
      (ans : Answers) (namespace name : String) (mem : Memory) (w : World)
      → mem.watches ≡ w.watches
      → ((gvk : Gvk) → Serves w gvk (ans.informer gvk))
      → IsSound (ledger w)
      → IsSound (ledger (after_pass ans (reconcile libs ans namespace name mem) w))
  passed-IsSound ans namespace name mem w same here sound =
      let p = reconcile libs ans namespace name mem in
      elim (reconcile-IsOneCall libs ans namespace name mem) [
        | inl (quiet, kept) ↦
            subst
              (λ calls. IsSound (
                ledger (
                  performed libs.gvk_text ans.watch calls
                    (record w { watches = p.memory.watches }))))
              (sym quiet)
              (subst (λ v. IsSound (ledger (record w { watches = v }))) (sym (kept ∙ same)) sound)
        | inr (gvk, (asked, (states, since))) ↦
            let r = call_of libs ans mem gvk in
            let there : World = record w { watches = mem.watches } in
            subst IsSound
              (sym (
                ap
                  (λ calls. ledger (
                    performed libs.gvk_text ans.watch calls
                      (record w { watches = p.memory.watches })))
                  asked
                ∙ performed-ledger libs.gvk_text ans.watch r.1
                    (record w { watches = p.memory.watches }) (record w { watches = r.0 })
                    (ap {A = List (Gvk × ℕ)} {B = Ledger}
                      (λ s. record {
                        current = w.current;
                        next = w.next;
                        handlers = w.handlers;
                        states = s;
                      })
                      states)))
              (call-IsSound ans ans.has_controller gvk (ans.informer gvk) ans.watch_time there
                (subst (λ v. IsSound (ledger (record w { watches = v }))) (sym same) sound)
                (here gvk))
      ]

  pub Life-IsSound : {w : World} → Life w → IsSound (ledger w)
  unfolding handlers_of
  Life-IsSound born = record {
    once = λ g i. omega arith;
    used = λ g i h. absurd (omega (arith, h));
    live = λ g i h. absurd (cc);
    known = λ g i h n. absurd (cc);
    held = λ g i h. absurd (cc);
  }
  Life-IsSound (passed {w = w} l ans namespace name mem same here) =
      passed-IsSound ans namespace name mem w same here (Life-IsSound l)
  Life-IsSound (begun {w = w} l gvk) =
      (served-IsSound libs.gvk_text gvk w (at same_kind gvk w.current) refl (Life-IsSound l)).0
  Life-IsSound (lost {w = w} l gvk) = dropped-IsSound gvk (ledger w) (Life-IsSound l)
