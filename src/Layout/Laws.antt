-- ===== src/Layout/Laws.antt =====
-- The navigation and the theme.
use control_room.Base.{String, Bool, List, [], ◌∷◌, Option, some, ◌≡◌, refl, ap, sym, ◌∙◌}
use control_room.Layout.{
  Theme, light, dark, system, text_of, read_stored_theme, Look, apply_theme, with_theme, open_look,
  Event, set_theme, prefer, on_prefer, step, run,
}

-- The page looks as its theme says, and the storage holds that theme.
pub record Inv (s : Look) : Type 0 where
  pub looks : s.is_dark ≡ apply_theme s.theme s.prefers_dark
  pub stores : s.stored ≡ some (text_of s.theme)

on_prefer-Inv : (t : Theme) (b : Bool) (s : Look) → s.theme ≡ t → Inv s → Inv (on_prefer t b s)
unfolding on_prefer apply_theme
on_prefer-Inv light b s p h = record {
  looks = h.looks ∙ (ap (λ t. apply_theme t s.prefers_dark) p ∙ sym (ap (λ t. apply_theme t b) p));
  stores = h.stores;
}
on_prefer-Inv dark b s p h = record {
  looks = h.looks ∙ (ap (λ t. apply_theme t s.prefers_dark) p ∙ sym (ap (λ t. apply_theme t b) p));
  stores = h.stores;
}
on_prefer-Inv system b s p h = record {
  looks = sym (ap (λ t. apply_theme t b) p);
  stores = h.stores;
}

run-Inv : (es : List Event) (s : Look) → Inv s → Inv (run es s)
unfolding run step with_theme
run-Inv [] s h = h
run-Inv (set_theme t ∷ es) s h =
    run-Inv es (with_theme t s) (record { looks = refl; stores = refl })
run-Inv (prefer b ∷ es) s h = run-Inv es (on_prefer s.theme b s) (on_prefer-Inv s.theme b s refl h)

open_look-Inv : (stored : Option String) (prefers : Bool) → Inv (open_look stored prefers)
unfolding open_look with_theme
open_look-Inv stored prefers = record { looks = refl; stores = refl }

read_stored_theme-text_of : (t : Theme) → read_stored_theme (some (text_of t)) ≡ t
unfolding read_stored_theme
read_stored_theme-text_of light = refl
read_stored_theme-text_of dark = refl
read_stored_theme-text_of system = refl

-- Whatever was stored at first, and however the theme and the browser's preference change, opening the
-- page again with what is stored then shows the same theme in the same look, and stores it again.
pub theme_survives_reload :
    (stored : Option String) (prefers : Bool) (es : List Event)
    → let t = run es (open_look stored prefers) in open_look t.stored t.prefers_dark ≡ t
unfolding open_look with_theme
theme_survives_reload stored prefers es =
    let t = run es (open_look stored prefers) in
    let h = run-Inv es (open_look stored prefers) (open_look-Inv stored prefers) in
    let same : read_stored_theme t.stored ≡ t.theme =
      ap read_stored_theme h.stores ∙ read_stored_theme-text_of t.theme in
    λ i. record {
      theme = same i;
      stored = (ap (λ u. some (text_of u)) same ∙ sym h.stores) i;
      prefers_dark = t.prefers_dark;
      is_dark = (ap (λ u. apply_theme u t.prefers_dark) same ∙ sym h.looks) i;
    }
