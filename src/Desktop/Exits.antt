-- ===== src/Desktop/Exits.antt =====
-- The exit functions of desktop/app/app.go are started once.
use mathlib.Core.List.{append-nil, append_assoc}
use lantern_client.Prelude.{◌≡◌, refl, ap, ◌∙◌, ℕ, suc, Bool, true, false, List, [], ◌∷◌, ◌++◌, All}
use lantern_client.Desktop.Lifecycle.{
  Life, Event, add_exit_func, exits, on_config_update, on_proxies_update, on_succeeding_proxy,
  send_config, exit, step, run, answers,
}

abbrev pub IsNotExit : Event → Type 0
IsNotExit exits = ⊥
IsNotExit _ = Unit

-- The functions that are added, in order.
abbrev pub added : List Event → List ℕ
added [] = []
added (add_exit_func f ∷ es) = f ∷ added es
added (e ∷ es) = added es

abbrev pub trues : List Bool → ℕ
trues [] = 0
trues (true ∷ bs) = suc (trues bs)
trues (false ∷ bs) = trues bs

exit_again : (l : Life) → l.has_exited ≡ true → exit l ≡ (false, l)
unfolding exit
exit_again l h = simp h

-- After the exit nothing is started again, and no call is answered with true.
after_exit :
    (es : List Event) (l : Life)
    → l.has_exited ≡ true
    → ((run es l).runs ≡ l.runs) × (trues (answers es l) ≡ 0)
unfolding run answers step
after_exit [] l h = (refl, refl)
after_exit (add_exit_func f ∷ es) l h = after_exit es _ h
after_exit (exits ∷ es) l h =
    let (same, none_true) = after_exit es l h in
    (
      ap (λ (x : Bool × Life). (run es x.1).runs) (exit_again l h) ∙ same,
      rw (exit_again l h) none_true,
    )
after_exit (on_config_update ∷ es) l h = after_exit es _ h
after_exit (on_proxies_update ∷ es) l h = after_exit es _ h
after_exit (on_succeeding_proxy ∷ es) l h = after_exit es _ h
after_exit (send_config ∷ es) l h = after_exit es _ h

-- However the application is told to exit again, its exit functions are started once: those that were added
-- before the first call of `Exit`; and just that call is answered with true.
pub exits_lem :
    (before later : List Event) (l : Life)
    → l.has_exited ≡ false
    → All IsNotExit before
    → ((run (before ++ exits ∷ later) l).runs ≡ (l.exit_funcs ++ added before) ∷ l.runs)
      × (trues (answers (before ++ exits ∷ later) l) ≡ 1)
unfolding run answers step exit
exits_lem [] later l h q =
    rw (h, append-nil)
      (let (same, none_true) =
          after_exit later (record l { has_exited = true; runs = l.exit_funcs ∷ l.runs }) refl in
        (same, ap suc none_true))
exits_lem (add_exit_func f ∷ es) later l h q =
    let (ran, one) = exits_lem es later (record l { exit_funcs = l.exit_funcs ++ f ∷ [] }) h q.1 in
    (ran ∙ ap (λ fs. fs ∷ l.runs) (append_assoc l.exit_funcs (f ∷ []) (added es)), one)
exits_lem (exits ∷ es) later l h q = elim (q.0) [ ]
exits_lem (on_config_update ∷ es) later l h q = exits_lem es later _ h q.1
exits_lem (on_proxies_update ∷ es) later l h q = exits_lem es later _ h q.1
exits_lem (on_succeeding_proxy ∷ es) later l h q = exits_lem es later _ h q.1
exits_lem (send_config ∷ es) later l h q = exits_lem es later _ h q.1
