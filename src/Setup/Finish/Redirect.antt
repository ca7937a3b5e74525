-- ===== src/Setup/Finish/Redirect.antt =====
-- What becomes of the last step of web/src/routes/Setup.tsx.
use control_room.Base.{ℕ, suc, String, true, List, [], ◌∷◌, ◌++◌, map, some, ◌≡◌, refl, arith, ◌∙◌}
use control_room.Queries.Types.{MeUser}
use control_room.Gates.{
  setup_page, app_page, navigate, children, gate, setup_gate, auth_gate, follow, setup_completed,
  set_data,
}
use control_room.Setup.Finish.{Tab, finished, enter, go, fire, step, run}

run-go-path : (ps : List String) (p : String) (t : Tab) → (run (map go (ps ++ p ∷ [])) t).path ≡ p
unfolding run step
run-go-path [] p t = refl
run-go-path (q ∷ ps) p t = run-go-path ps p (record t { path = q })

run-go-timer : (ps : List String) (t : Tab) → (run (map go ps) t).timer ≡ t.timer
unfolding run step
run-go-timer [] t = refl
run-go-timer (p ∷ ps) t = run-go-timer ps (record t { path = p })

step-fire : (t : Tab) → t.timer ≡ true → (step fire t).path ≡ "/"
unfolding step
step-fire t h = rw h refl

module _ (u : MeUser) (t : Tab) (n : ℕ) (waits : t.wizard.completions ≡ suc n) where
  entered-timer : (step enter (step (finished u) t)).timer ≡ true
  unfolding step
  entered-timer = ground (arith, waits)

  redirects : gate setup_page (step (finished u) t).session ≡ navigate app_page
  unfolding step gate setup_gate setup_completed set_data
  redirects = ground (arith, waits)

  lands : follow 2 setup_page (step (finished u) t).session ≡ some (app_page, children)
  unfolding step follow gate setup_gate auth_gate setup_completed set_data
  lands = ground (arith, waits)

  -- As soon as a completion is answered, the gate of the setup renders a redirect in place of the last
  -- step, and the gates end at the application. Whatever pages the user opens there, when the 800 ms are
  -- over the dashboard takes their place.
  pub done_never_shown :
      (ps : List String) (p : String)
      → let after = step (finished u) t in
        let there = run (map go (ps ++ p ∷ [])) (step enter after) in
        (gate setup_page after.session ≡ navigate app_page)
        × (follow 2 setup_page after.session ≡ some (app_page, children))
        × (there.path ≡ p)
        × ((step fire there).path ≡ "/")
  done_never_shown ps p =
      let after = step (finished u) t in
      (
        redirects,
        lands,
        run-go-path ps p (step enter after),
        step-fire (run (map go (ps ++ p ∷ [])) (step enter after))
            (run-go-timer (ps ++ p ∷ []) (step enter after) ∙ entered-timer),
      )
