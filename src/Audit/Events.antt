-- ===== src/Audit/Events.antt =====
-- The attributes of events in relayer/audit/audit.go: the coins that an event says were sent.
pub mod Last
use tx_xrpl_token_migrator.Base.{
  Bool, true, false, ◌&&◌, Option, none, some, List, [], ◌∷◌, ◌++◌, if◌then◌else◌,
}
use tx_xrpl_token_migrator.Base.Str.{Str, codes, str_eq}
use tx_xrpl_token_migrator.Base.Go.{Go, ok, err, panics, ◌>>=◌, new_error}
use tx_xrpl_token_migrator.Sdk.{Coin}
use tx_xrpl_token_migrator.Audit.Types.{Attribute, Event, Decoders}

-- `findEventSiblingAttributeValues`: after a match, the next attribute is read, and there is a
-- panic where there is none.
unfoldable pub find_event_sibling_attribute_values :
    List Attribute → Str → Str → Str → Go (List Str)
find_event_sibling_attribute_values [] sibling_key sibling_value next_attr_key = ok []
find_event_sibling_attribute_values (attr ∷ attrs) sibling_key sibling_value next_attr_key =
    let rest = find_event_sibling_attribute_values attrs sibling_key sibling_value next_attr_key in
    if str_eq attr.key sibling_key && str_eq attr.value sibling_value
    then elim attrs [
      | [] ↦ panics
      | next ∷ _ ↦
          if str_eq next.key next_attr_key
          then (rest >>= λ values. ok (next.value ∷ values))
          else rest
    ]
    else rest

-- The loop of `findEventsSiblingAttributeValues`.
unfoldable pub values_of_events : List Event → Str → Str → Str → Str → Go (List Str)
unfolding find_event_sibling_attribute_values
values_of_events [] etype sibling_key sibling_value next_attr_key = ok []
values_of_events (ev ∷ events) etype sibling_key sibling_value next_attr_key =
    let rest = values_of_events events etype sibling_key sibling_value next_attr_key in
    if str_eq ev.event_type etype
    then (find_event_sibling_attribute_values ev.attributes sibling_key sibling_value next_attr_key
        >>= λ values. rest >>= λ more. ok (values ++ more))
    else rest

module _ (D : Decoders) where
  -- `findEventsSiblingAttributeValues`
  unfoldable pub find_events_sibling_attribute_values :
      List Event → Str → Str → Str → Str → Go (List Str)
  find_events_sibling_attribute_values events = values_of_events (D.stringify_events events)

  -- The loop of `sumCoinsEventsSiblingAttributeValues`.
  unfoldable pub sum_coins : List Str → List Coin → Go (List Coin)
  sum_coins [] coins = ok coins
  sum_coins (v ∷ values) coins =
      let more = λ (cs : List Coin). sum_coins values cs in
      elim (D.parse_coin_normalized v) [
        | none ↦ err (new_error (codes "failed to parse string to count"))
        | some coin ↦ more (D.add_coin coins coin)
      ]

  -- `sumCoinsEventsSiblingAttributeValues`
  unfoldable pub sum_coins_events_sibling_attribute_values :
      List Event → Str → Str → Str → Str → Go (List Coin)
  unfolding find_events_sibling_attribute_values sum_coins
  sum_coins_events_sibling_attribute_values events etype sibling_key sibling_value next_attr_key =
      find_events_sibling_attribute_values events etype sibling_key sibling_value next_attr_key
      >>= λ values. sum_coins values []

  -- The attributes of an event, decoded.
  unfoldable pub decode_attributes : List Attribute → Go (List Attribute)
  decode_attributes [] = ok []
  decode_attributes (attr ∷ attrs) = elim (D.base64_decode attr.key) [
    | none ↦ err (new_error (codes "failed to decode base64 key string"))
    | some key ↦ elim (D.base64_decode attr.value) [
      | none ↦ err (new_error (codes "failed to decode base64 value string"))
      | some value ↦
          decode_attributes attrs >>= λ rest. ok (record { key = key; value = value } ∷ rest)
    ]
  ]

  -- `convertFromBase64ToStringAttributes`
  unfoldable pub convert_from_base64_to_string_attributes : List Event → Go (List Event)
  unfolding decode_attributes
  convert_from_base64_to_string_attributes [] = ok []
  convert_from_base64_to_string_attributes (evt ∷ events) =
      decode_attributes evt.attributes >>= λ attrs.
      convert_from_base64_to_string_attributes events >>= λ rest.
      ok (record { event_type = evt.event_type; attributes = attrs } ∷ rest)
