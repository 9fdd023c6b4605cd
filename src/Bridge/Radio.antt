-- ===== src/Bridge/Radio.antt =====
-- What the bridge hands to the radio, and what it asks the duty cycle guard.
use lo_ra_home.Prelude.{ℕ, ◌≡◌, List, [], ◌∷◌, true, false, none, length}
use lo_ra_home.Frame.{decode_header}
use lo_ra_home.Bridge.{Bridge, Ports, Emit, on_air, on_line, asked, accept, validate, is_local}

-- A frame for the radio: valid, and no request to the bridge itself.
pub record ForRadio (f : List ℕ) : Type 0 where
  pub valid : validate f (length f) ≡ accept
  pub remote : is_local (decode_header f (length f)) ≡ false

module _ {W : Type 0} where
  -- The calls of a bridge. Where there is a guard, it is asked once for each frame, with its length,
  -- right before the frame, and a refusal keeps the frame back. What goes to the host may be anything.
  pub data Cleared (ports : Ports W) : List Emit → Type 0 where
    quiet : Cleared ports []
    host : (f : List ℕ) {es : List Emit} → Cleared ports es → Cleared ports (on_line f ∷ es)
    kept_back : (n : ℕ) {es : List Emit} → Cleared ports es → Cleared ports (asked n false ∷ es)
    allowed :
        (f : List ℕ) {es : List Emit}
        → ForRadio f
        → Cleared ports es
        → Cleared ports (asked (length f) true ∷ on_air f ∷ es)
    no_radio :
        (n : ℕ) {es : List Emit}
        → ports.to_radio ≡ none
        → Cleared ports es
        → Cleared ports (asked n true ∷ es)
    no_guard :
        (f : List ℕ) {es : List Emit}
        → ports.allow_tx ≡ none
        → ForRadio f
        → Cleared ports es
        → Cleared ports (on_air f ∷ es)
