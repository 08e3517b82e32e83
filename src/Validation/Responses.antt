-- ===== src/Validation/Responses.antt =====
-- validation.py: `validate_api_response` of `DataValidator`, on the keys of a response.
use oanda_trader.Base.{
  ◌≡◌, ◌↔◌, refl, true, false, not, Option, none, some, List, [], ◌∷◌, arith, filter, if◌then◌else◌,
  String, Dict, has, All, Bool-cases, inl, inr,
}

-- The answers of `validate_api_response`.
pub data ResponseVerdict : Type 0 where
  no_response error_response : ResponseVerdict
  missing_keys : List String → ResponseVerdict
  valid_response : ResponseVerdict

abbrev pub keys_verdict : List String → ResponseVerdict
keys_verdict [] = valid_response
keys_verdict (k ∷ ks) = missing_keys (k ∷ ks)

unfoldable pub validate_api_response {ℓ} :
    {V : Type ℓ} → Option (Dict V) → List String → ResponseVerdict
unfolding filter
validate_api_response none expected_keys = no_response
validate_api_response (some response) expected_keys =
    if has "errorMessage" response
    then error_response
    else (if has "error" response
        then error_response
        else keys_verdict (filter (λ k. not (has k response)) expected_keys))

-- The response has no error and every expected key.
abbrev pub IsValidResponse {ℓ} : {V : Type ℓ} → Option (Dict V) → List String → Type 0
IsValidResponse none keys = ⊥
IsValidResponse (some response) keys =
    (has "errorMessage" response ≡ false)
    × (has "error" response ≡ false)
    × All (λ k. has k response ≡ true) keys

module _ {V : Type 0} where
  keys_verdict_iff :
      (response : Dict V) (keys : List String)
      → (keys_verdict (filter (λ k. not (has k response)) keys) ≡ valid_response)
        ↔ All (λ k. has k response ≡ true) keys
  unfolding filter
  keys_verdict_iff response [] = (λ e. tt, λ h. refl)
  keys_verdict_iff response (k ∷ keys) = elim (Bool-cases (has k response)) [
    | inl h ↦ rw h (
      λ e. (refl, (keys_verdict_iff response keys).0 e),
      λ p. (keys_verdict_iff response keys).1 p.1,
    )
    | inr h ↦ rw h (λ e. absurd (ground arith), λ p. absurd (ground (arith, p.0)))
  ]

  -- A response is valid exactly if there is one, it carries neither of the two keys of an error, and
  -- every expected key is in it.
  validate_api_response_iff :
      (response : Option (Dict V)) (keys : List String)
      → (validate_api_response response keys ≡ valid_response) ↔ IsValidResponse response keys
  unfolding validate_api_response
  validate_api_response_iff none keys = (λ e. absurd (ground arith), λ p. elim p [ ])
  validate_api_response_iff (some response) keys =
      let inner = keys_verdict_iff response keys in
      elim (Bool-cases (has "errorMessage" response)) [
        | inl h ↦ rw h (λ e. absurd (ground arith), λ p. absurd (ground (arith, p.0)))
        | inr h ↦ elim (Bool-cases (has "error" response)) [
          | inl k ↦ rw (h, k) (λ e. absurd (ground arith), λ p. absurd (ground (arith, p.1)))
          | inr k ↦ rw (h, k) (λ e. (refl, refl, inner.0 e), λ p. inner.1 p.2)
        ]
      ]
