-- ===== src/Tests/Requests.antt =====
use research_paper_aep.Base.{
  All, Any, List, String, [], arith, false, none, refl, some, true, ℕ, ◌++◌, ◌∷◌, ◌≡◌,
}
use research_paper_aep.StateCodec.Encode.{
  PyValue, Text, all_scalar, dict_value, encode_state, encoded, entry, int_value, item, list_value,
  no_entries, no_items, none_value, str_value, write_string,
}
use research_paper_aep.Requests.Names.{
  components, normalized_name, safe_field, safe_id, validate_safe_field_name,
}
use research_paper_aep.Requests.Rules.{
  SafeValueRule, array_item, array_kind, built, integer_kind, kind_is_given, no_fields, no_item,
  no_variants, object_field, object_kind, one_of_kind, pos, rule, rule_post_init, string_kind,
  validate_safe_value, variant,
}
use research_paper_aep.Requests.Rules.Safe.{Safe, validate_safe_value_sound}
use research_paper_aep.Requests.Boundary.{
  Binding, Making, Purpose, Services, VerifiedDispatch, consume_dispatch, found, issue_dispatch,
  release, serves, unspoilt, without,
}
use research_paper_aep.Requests.Boundary.Issued.{
  DispatchOp, consumed_for, dispatch_step, dropped, issued_for, registry,
}
use research_paper_aep.Requests.Boundary.Spent.{
  Covers, Known, Later, consume_dispatch_issued, consume_dispatch_once,
}
use research_paper_aep.StateCodec.Tree.{Reader}
use research_paper_aep.StateCodec.Check.{aep_json_member_check, finished}
use research_paper_aep.StateCodec.Utf8.Exact.{encode_all}
use research_paper_aep.Requests.Canonical.{canonical_json_bytes, canonical_value, limited}
use research_paper_aep.Requests.Canonical.Accepted.{NamesRead, canonical_json_bytes_accepted}

-- One rule and one value.

abbrev kind_name : Text
kind_name = 107 ∷ 105 ∷ 110 ∷ 100 ∷ []

abbrev usd : Text
usd = 117 ∷ 115 ∷ 100 ∷ []

abbrev string_rule : List Text → SafeValueRule
string_rule ts = rule string_kind ts none none no_item 64 false no_fields no_variants

abbrev list_rule : SafeValueRule → ℕ → SafeValueRule
list_rule r most = rule array_kind [] none none (array_item r) most false no_fields no_variants

abbrev choice : SafeValueRule
choice = rule one_of_kind [] none none no_item 64 false no_fields (
    variant (list_rule (string_rule (usd ∷ [])) 2) (
      variant (rule integer_kind [] (some (pos 1)) none no_item 64 false no_fields no_variants)
        no_variants))

-- {"kind": one of a list of "usd" and an integer from 1}
abbrev order : SafeValueRule
order =
    rule object_kind [] none none no_item 64 true (object_field kind_name choice no_fields)
      no_variants

-- {"kind": ["usd"]}
abbrev order_value : PyValue
order_value = dict_value (entry kind_name (list_value (item (str_value usd) no_items)) no_entries)

order-built : built order ≡ true
unfolding built rule_post_init kind_is_given validate_safe_field_name safe_field safe_id components
    normalized_name
order-built = refl

order_accepts : validate_safe_value order order_value ≡ true
unfolding validate_safe_value
order_accepts = refl

order_refuses_zero :
    validate_safe_value order (dict_value (entry kind_name (int_value 0) no_entries)) ≡ false
unfolding validate_safe_value
order_refuses_zero = refl

validate_safe_value_sound_example : Safe order_value
validate_safe_value_sound_example =
    validate_safe_value_sound order order_value order-built order_accepts

-- One dispatch.

abbrev services : Services
services = record {
  sha256 = λ t. t;
  sign = λ nonce digest text. nonce;
  canonical = λ b. some b.others;
}

abbrev bound_request : Binding
bound_request = record {
  connector_identity = "payments";
  connector_operation = "charge";
  endpoint_profile_id = "charge-v1";
  endpoint_profile_version = "1";
  execution_id = "e1";
  step_id = "s1";
  intent_id = "i1";
  correlation_id = "c1";
  dispatch_material_not_after_ms = 90;
  others = "canonical";
}

abbrev charge_purpose : Purpose
charge_purpose = record {
  connector_identity = "payments";
  connector_operation = "charge";
  endpoint_profile_id = "charge-v1";
  endpoint_profile_version = "1";
  execution_id = "e1";
  step_id = "s1";
  intent_id = "i1";
  correlation_id = "c1";
}

abbrev charge_body : String
charge_body = "body"

abbrev charge_dispatch : VerifiedDispatch
charge_dispatch = record {
  serial = 1;
  identity = 40;
  exact_request_bytes = "body";
  binding = bound_request;
  provenance = "n";
}

abbrev made_at : ℕ → ℕ → Making
made_at n k = record { serial = n; identity = k; nonce = "n"; now = 100 }

abbrev charge_issued : List DispatchOp
charge_issued = issued_for (made_at 1 40) "body" bound_request 50 ∷ []

-- the object is collected, and another one gets its id
abbrev charge_later : List DispatchOp
charge_later = issued_for (made_at 2 40) "body" bound_request 60 ∷ dropped 1 40 ∷ []

charge_released :
    (consume_dispatch services 140 charge_dispatch charge_purpose
      (registry services charge_issued)).0
    ≡ some "body"
unfolding consume_dispatch registry dispatch_step issue_dispatch without found release unspoilt
    serves
charge_released = refl

charge_too_late :
    (consume_dispatch services 141 charge_dispatch charge_purpose
      (registry services charge_issued)).0
    ≡ none
unfolding consume_dispatch registry dispatch_step issue_dispatch without found release unspoilt
    serves
charge_too_late = refl

consume_dispatch_issued_example :
    (charge_body ≡ charge_dispatch.exact_request_bytes)
    × (serves bound_request charge_purpose ≡ true)
    × Any (Covers services 140 charge_dispatch) charge_issued
consume_dispatch_issued_example =
    consume_dispatch_issued services charge_issued 140 charge_dispatch charge_purpose charge_body
      charge_released

charge-Known : All (Known charge_dispatch) charge_issued
charge-Known = (λ e. refl, tt)

charge_later-Later : All (Later charge_dispatch) charge_later
charge_later-Later = (λ e. absurd (omega (arith, e)), (tt, tt))

consume_dispatch_once_example :
    (consume_dispatch services 120 charge_dispatch charge_purpose (
      registry services
        (charge_later ++ (consumed_for 110 charge_dispatch charge_purpose ∷ charge_issued)))).0
    ≡ none
consume_dispatch_once_example =
    consume_dispatch_once services charge_dispatch charge_issued charge_later 110 120 charge_purpose
      charge_purpose charge-Known charge_later-Later

-- {"kind": ["usd", 3]} in canonical form, where no text has another normal form

abbrev invoice : PyValue
invoice =
    dict_value
      (entry kind_name (list_value (item (str_value usd) (item (int_value 3) no_items))) no_entries)

abbrev as_it_is : Text → Text
as_it_is t = t

abbrev kind_reader : Reader
kind_reader = record {
  decode_name = λ b. some kind_name;
  finite = λ ts. true;
  decodes = λ ts. true;
}

invoice_canonical : canonical_value as_it_is false 0 invoice ≡ some invoice
unfolding canonical_value all_scalar encode_all
invoice_canonical = refl

repeated_key :
    canonical_value as_it_is false 0
      (dict_value (entry kind_name none_value (entry kind_name none_value no_entries)))
    ≡ none
unfolding canonical_value all_scalar encode_all
repeated_key = refl

invoice-NamesRead : NamesRead kind_reader invoice
unfolding NamesRead encode_all write_string
invoice-NamesRead = (refl, (tt, (tt, tt)), tt)

canonical_json_bytes_accepted_example :
    (t : Text) × (encode_state invoice ≡ encoded t)
    × (canonical_json_bytes as_it_is invoice ≡ limited t)
    × (aep_json_member_check kind_reader (encode_all t)
        ≡ finished (kind_reader.decodes (encode_all t)))
canonical_json_bytes_accepted_example =
    canonical_json_bytes_accepted kind_reader (λ n h. (refl, refl)) as_it_is invoice invoice
      invoice-NamesRead invoice_canonical
