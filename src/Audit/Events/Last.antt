-- ===== src/Audit/Events/Last.antt =====
-- A sibling attribute at the end of an event.
use tx_xrpl_token_migrator.Base.{◌≡◌, refl, inl, inr, true, ◌&&◌, List, [], ◌∷◌, ◌++◌, Bool-cases}
use tx_xrpl_token_migrator.Base.Str.{Str, str_eq}
use tx_xrpl_token_migrator.Base.Go.{panics}
use tx_xrpl_token_migrator.Audit.Types.{Attribute}
use tx_xrpl_token_migrator.Audit.Events.{find_event_sibling_attribute_values}

before :
    (a b : Attribute) (attrs : List Attribute) (sibling_key sibling_value next_attr_key : Str)
    → find_event_sibling_attribute_values (b ∷ attrs) sibling_key sibling_value next_attr_key
      ≡ panics
    → find_event_sibling_attribute_values (a ∷ b ∷ attrs) sibling_key sibling_value next_attr_key
      ≡ panics
unfolding find_event_sibling_attribute_values
before a b attrs sibling_key sibling_value next_attr_key h =
    elim (Bool-cases (str_eq a.key sibling_key && str_eq a.value sibling_value)) [
      | inl y ↦ elim (Bool-cases (str_eq b.key next_attr_key)) [
        | inl z ↦ rw (y, z, h) refl
        | inr z ↦ rw (y, z) h
      ]
      | inr n ↦ rw n h
    ]

-- The search panics on every event whose last attribute is the sibling that it looks for,
-- although a guard is there to prevent that.
pub last_sibling_panics :
    (front : List Attribute) (attr : Attribute) (sibling_key sibling_value next_attr_key : Str)
    → str_eq attr.key sibling_key ≡ true
    → str_eq attr.value sibling_value ≡ true
    → find_event_sibling_attribute_values
        (front ++ attr ∷ [])
        sibling_key
        sibling_value
        next_attr_key
      ≡ panics
unfolding find_event_sibling_attribute_values
last_sibling_panics [] attr sibling_key sibling_value next_attr_key k v = rw (k, v) refl
last_sibling_panics (a ∷ []) attr sibling_key sibling_value next_attr_key k v =
    before a attr [] sibling_key sibling_value next_attr_key
      (last_sibling_panics [] attr sibling_key sibling_value next_attr_key k v)
last_sibling_panics (a ∷ b ∷ front) attr sibling_key sibling_value next_attr_key k v =
    before a b (front ++ attr ∷ []) sibling_key sibling_value next_attr_key
      (last_sibling_panics (b ∷ front) attr sibling_key sibling_value next_attr_key k v)
