-- ===== src/AppRegistry/Checks.antt =====
-- The checks of src/app_registry.rs on the token and on the events.
use xorc_gateway.Base.{
  ◌≡◌, ◌≢◌, ◌⊎◌, inl, inr, refl, some, none, Option, List, [], ◌∷◌, Text, Text-discrete, arith,
  text_eq,
}
use xorc_gateway.AppRegistry.{check_token, check_events}
use xorc_gateway.Error.{invalid_token}
use xorc_gateway.Results.{ok, err}

-- What the check of the token comes to.
pub check_token-cases :
    (o : Option Text) (v : Text)
    → (check_token o v ≡ ok tt) × ((t : Text) → o ≡ some t → t ≡ v)
      ⊎ ((t : Text) × (check_token o v ≡ err invalid_token) × (o ≡ some t) × (t ≢ v))
unfolding check_token
check_token-cases none v = inl (refl, λ t e. cc)
check_token-cases (some t) v = elim (Text-discrete t v) [
  | yes same ↦ inl (ground arith, λ t' e. cc)
  | no differ ↦ inr (t, ground arith, refl, differ)
]

pub check_token-ok :
    (o : Option Text) (v : Text) → ((t : Text) → o ≡ some t → t ≡ v) → check_token o v ≡ ok tt
unfolding check_token
check_token-ok none v h = refl
check_token-ok (some t) v h = ground (arith, h t refl)

pub check_token-wrong : (t v : Text) → t ≢ v → check_token (some t) v ≡ err invalid_token
unfolding check_token
check_token-wrong t v h = ground arith

pub List-cases {ℓ} : {A : Type ℓ} (l : List A) → (l ≡ []) ⊎ (l ≢ [])
List-cases [] = inl refl
List-cases (x ∷ xs) = inr (λ e. cc)

pub check_events-ok {ℓ} : {A : Type ℓ} (l : List A) → l ≢ [] → check_events l ≡ ok tt
unfolding check_events
check_events-ok [] h = absurd (h refl)
check_events-ok (x ∷ xs) h = refl
