-- ===== src/Convex/Interlocking/Message/Laws.antt =====
-- When a guarded push pushes nothing.
use atdd_extensions.Base.{
  ◌≡◌, ◌↔◌, refl, Bool, true, false, not, List, [], ◌∷◌, Text, has_text, In, has_text_iff,
}
use atdd_extensions.Base.Report.{Violation}
use atdd_extensions.Convex.Interlocking.Message.{unless}

pub unless-nil : (b : Bool) (v : Violation) → (unless b (v ∷ []) ≡ []) ↔ (b ≡ true)
unless-nil true v = (λ h. refl, λ h. refl)
unless-nil false v = (λ h. cc, λ h. cc)

pub unless-not-nil :
    (b : Bool) (vs : List Violation) → (unless (not b) vs ≡ []) ↔ (b ≡ true → vs ≡ [])
unless-not-nil true vs = (λ h e. h, λ h. h refl)
unless-not-nil false vs = (λ h e. cc, λ h. refl)

pub unless-has_text-nil :
    (ws : List Text) (t : Text) (v : Violation) → (unless (has_text ws t) (v ∷ []) ≡ []) ↔ In t ws
unless-has_text-nil ws t v =
    let tests = unless-nil (has_text ws t) v in
    let members = has_text_iff ws t in (λ h. members.0 (tests.0 h), λ m. tests.1 (members.1 m))
