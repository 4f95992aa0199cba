-- ===== src/State/Validate.antt =====
-- crates/af-swarm-state/src/store.rs, `validate_id`: what an identifier may contain.
use swarm_runtime.Prelude.{
  Bytes, [], ◌∷◌, Bool, true, false, ◌≡◌, ◌≢◌, refl, ◌↔◌, contains, HasPart, contains-HasPart,
  HasPart-contains, if◌then◌else◌,
}
use swarm_runtime.State.Error.{StateResult, ok, err, invalid_input, contains_key_sep, is_empty}
use swarm_runtime.State.Keys.{key_sep}

abbrev is_empty_str : Bytes → Bool
is_empty_str [] = true
is_empty_str (c ∷ s) = false

unfoldable pub validate_id : Bytes → Bytes → StateResult (Unit {0})
validate_id value field =
    if contains key_sep value
    then err (invalid_input (contains_key_sep field value))
    else if is_empty_str value
    then err (invalid_input (is_empty field))
    else ok tt

-- An identifier that `validate_id` lets through.
abbrev pub IsValidId : Bytes → Type 0
IsValidId s = (contains key_sep s ≡ false) × (s ≢ [])

-- The three answers of `validate_id`, each with the identifiers that get it.
abbrev IsAnswered : Bytes → Bytes → Type 0
IsAnswered value field =
    ((validate_id value field ≡ ok tt) ↔ ((value ≢ []) × ¬ HasPart key_sep value))
    × ((validate_id value field ≡ err (invalid_input (contains_key_sep field value)))
        ↔ HasPart key_sep value)
    × ((validate_id value field ≡ err (invalid_input (is_empty field))) ↔ (value ≡ []))

not_found : false ≡ true → ⊥
not_found h = cc

validate_id-cases :
    (value field : Bytes) (found : Bool)
    → contains key_sep value ≡ found
    → (HasPart key_sep value → found ≡ true)
    → (found ≡ true → HasPart key_sep value)
    → IsAnswered value field
unfolding validate_id
validate_id-cases [] field true e to from = absurd (cc)
validate_id-cases (c ∷ s) field true e to from =
    let part = from refl in
    let told : validate_id (c ∷ s) field ≡ err (invalid_input (contains_key_sep field (c ∷ s))) =
      rw e refl in
    (
      ((λ ok'. absurd (cc)), (λ (_, none). absurd (none part))),
      ((λ _. part), (λ _. told)),
      ((λ empty. absurd (cc)), (λ empty. absurd (cc))),
    )
validate_id-cases [] field false e to from = (
  ((λ ok'. absurd (cc)), (λ (some_byte, _). absurd (some_byte refl))),
  ((λ sep. absurd (cc)), (λ part. absurd (not_found (to part)))),
  ((λ _. refl), (λ _. refl)),
)
validate_id-cases (c ∷ s) field false e to from =
    let accepted : validate_id (c ∷ s) field ≡ ok tt = rw e refl in
    (
      ((λ _. ((λ empty. absurd (cc)), (λ part. absurd (not_found (to part))))), (λ _. accepted)),
      ((λ sep. absurd (cc)), (λ part. absurd (not_found (to part)))),
      ((λ empty. absurd (cc)), (λ empty. absurd (cc))),
    )

-- `validate_id` accepts an identifier exactly if it has bytes and the separator stands nowhere in it;
-- it reports the separator, with the field and the identifier, exactly if that stands somewhere in it,
-- and an empty identifier, with the field, exactly if there is no byte.
pub validate_id_iff :
    (value field : Bytes)
    → ((validate_id value field ≡ ok tt) ↔ ((value ≢ []) × ¬ HasPart key_sep value))
      × ((validate_id value field ≡ err (invalid_input (contains_key_sep field value)))
          ↔ HasPart key_sep value)
      × ((validate_id value field ≡ err (invalid_input (is_empty field))) ↔ (value ≡ []))
validate_id_iff value field =
    validate_id-cases value field (contains key_sep value) refl
      (HasPart-contains 124 (124 ∷ []) value) (contains-HasPart key_sep value)
