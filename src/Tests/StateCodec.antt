-- ===== src/Tests/StateCodec.antt =====
use research_paper_aep.StateCodec.Check.{
  aep_json_member_check, finished, good, max_depth, out_of_fuel, parse_value,
}
use research_paper_aep.Base.{
  All, List, Option, String, [], arith, false, if◌then◌else◌, inl, nat_eq, none, refl, some, true,
  ℕ, ◌||◌, ◌↔◌, ◌∷◌, ◌≡◌, ◌≢◌, ◌≤◌,
}
use research_paper_aep.StateCodec.{Bytes}
use research_paper_aep.StateCodec.Utf8.{aep_utf8_check}
use research_paper_aep.StateCodec.Token.{parse_name, parse_number, skip_whitespace}
use research_paper_aep.StateCodec.Token.Strings.{Char, IsChar, plain, print_string, unicode}
use research_paper_aep.StateCodec.Token.Numbers.{print_number}
use research_paper_aep.StateCodec.Tree.{
  IsJson, Json, Reader, depth, distinct, last_member, next_member, null_word, object, print_value,
  word,
}
use research_paper_aep.StateCodec.Check.Complete.{IsTextOf, aep_json_member_check-verdict, verdict}
use research_paper_aep.StateCodec.Check.Exact.{
  aep_json_member_check_answers, aep_json_member_check_exact,
}
use research_paper_aep.StateCodec.Utf8.Exact.{IsScalar, aep_utf8_check_exact, encode_all}
use research_paper_aep.StateCodec.Scripts.{IsStrict, checked_codec, intent_cas-IsStrict}
use research_paper_aep.Intents.Cas.Header.{fence, frame, read_states}
use research_paper_aep.Intents.Status.{is_legal, old_text, status_text}
use research_paper_aep.Intents.Cas.Creation.{creation, creation_binding, scan}
use research_paper_aep.Intents.Cas.Ledger.{retention}
use research_paper_aep.Intents.Cas.Update.{audit, unconfirmed}
use research_paper_aep.Lua.Value.{border, entries, find}
use research_paper_aep.Lua.Equal.{deep_equal, each_equal, keys_within}
use research_paper_aep.Lua.Script.{each}
use research_paper_aep.Intents.Cas.Accepted.{Accepts}
use research_paper_aep.Intents.Cas.{branch, intent_cas, validate}
use research_paper_aep.Redis.{get, same_key, set, state}
use research_paper_aep.Tests.Fixture.{codec, create_args, start}
use research_paper_aep.StateCodec.Encode.{
  PyValue, Text, dict_value, encode_state, encoded, entry, int_value, item, list_value,
  negative_int, no_entries, no_items, not_finite_or_unicode, refused, str_value, write_string,
}
use research_paper_aep.StateCodec.Encode.Tree.{IsState}
use research_paper_aep.StateCodec.Encode.Names.{IsKeyed}
use research_paper_aep.StateCodec.Encode.Legal.{nesting}
use research_paper_aep.StateCodec.Encode.Accepted.{encode_state_accepted}
use research_paper_aep.Intents.Cas.Args.{lua_successor}

-- The check of raw texts on concrete bytes.

-- The names that stand for one letter, each read as the letter that it writes; an escape is taken for an a.
abbrev read_letter : Bytes → Option Bytes
read_letter (q ∷ b ∷ _) = some (if nat_eq b 97 || nat_eq b 92 then 97 ∷ [] else b ∷ [])
read_letter _ = none

abbrev reader : Reader
reader = record { decode_name = read_letter; finite = λ ts. true; decodes = λ ts. true }

abbrev letter_a : List Char
letter_a = plain 97 ∷ []

-- {"a":[1,true ]}
abbrev sample_bytes : Bytes
sample_bytes =
    123 ∷ 34 ∷ 97 ∷ 34 ∷ 58 ∷ 91 ∷ 49 ∷ 44 ∷ 116 ∷ 114 ∷ 117 ∷ 101 ∷ 32 ∷ 93 ∷ 125 ∷ 10 ∷ []

sample_accepted : aep_json_member_check reader sample_bytes ≡ good tt
unfolding aep_json_member_check parse_value skip_whitespace aep_utf8_check parse_name parse_number
sample_accepted = refl

-- {"a":null,"\u0061":null}, where the second name is written by an escape.
abbrev escaped_a : List Char
escaped_a = unicode 48 48 54 49 ∷ []

abbrev repeated : Json
repeated = object [] (
    next_member letter_a (97 ∷ []) [] [] (word null_word) [] []
      (last_member escaped_a (97 ∷ []) [] [] (word null_word) []))

abbrev repeated_bytes : Bytes
repeated_bytes =
    123 ∷ 34 ∷ 97 ∷ 34 ∷ 58 ∷ 110 ∷ 117 ∷ 108 ∷ 108 ∷ 44 ∷ 34 ∷ 92 ∷ 117 ∷ 48 ∷ 48 ∷ 54 ∷ 49 ∷ 34
    ∷ 58 ∷ 110 ∷ 117 ∷ 108 ∷ 108 ∷ 125 ∷ []

plain_a : All IsChar letter_a
plain_a = ((omega arith, omega arith, omega arith), tt)

repeated-IsTextOf : IsTextOf reader repeated repeated_bytes
unfolding aep_utf8_check IsJson depth print_value print_number print_string
repeated-IsTextOf = record {
  encoded = refl;
  before = [];
  behind = [];
  before-IsSpace = tt;
  behind-IsSpace = tt;
  legal = (
    tt,
    (plain_a, refl, tt, tt, tt, tt, tt, (((refl, refl, refl, refl), tt), refl, tt, tt, tt, tt)),
  );
  within_depth = omega arith;
  whole = refl;
}

aep_json_member_check-verdict_example :
    aep_json_member_check reader repeated_bytes ≡ verdict (distinct repeated) true
aep_json_member_check-verdict_example =
    aep_json_member_check-verdict reader repeated repeated_bytes repeated-IsTextOf

aep_json_member_check_exact_example :
    (aep_json_member_check reader sample_bytes ≡ good tt)
    ↔ ((v : Json) × IsTextOf reader v sample_bytes × (distinct v ≡ true) × (true ≡ true))
aep_json_member_check_exact_example = aep_json_member_check_exact reader sample_bytes

aep_json_member_check_answers_example :
    aep_json_member_check reader (91 ∷ 91 ∷ 91 ∷ []) ≢ out_of_fuel
aep_json_member_check_answers_example = aep_json_member_check_answers reader (91 ∷ 91 ∷ 91 ∷ [])

aep_utf8_check_exact_example :
    (aep_utf8_check (226 ∷ 130 ∷ 172 ∷ []) ≡ true)
    ↔ ((cs : List ℕ) × All IsScalar cs × (226 ∷ 130 ∷ 172 ∷ [] ≡ encode_all cs))
aep_utf8_check_exact_example = aep_utf8_check_exact (226 ∷ 130 ∷ 172 ∷ [])

abbrev raw_bytes : String → Bytes
raw_bytes s = sample_bytes

checked_creation : Accepts (checked_codec raw_bytes reader codec.decode) "e1" create_args start
unfolding checked_codec aep_json_member_check parse_value skip_whitespace aep_utf8_check parse_name
    parse_number intent_cas validate read_states fence lua_successor frame branch unconfirmed audit
    retention creation creation_binding scan get set same_key find entries border deep_equal
    keys_within each each_equal status_text old_text is_legal
checked_creation = refl

intent_cas-IsStrict_example :
    (raw : String) × (get start (state "e1") ≡ some raw)
    × IsStrict reader (raw_bytes raw)
    × IsStrict reader (raw_bytes create_args.payload)
intent_cas-IsStrict_example =
    intent_cas-IsStrict raw_bytes reader codec.decode "e1" create_args start checked_creation

new_stored : get start (state "e1") ≡ some "new"
unfolding get set same_key
new_stored = refl

repeated-distinct : distinct repeated ≡ false
unfolding distinct
repeated-distinct = refl

abbrev repeated_raw : String → Bytes
repeated_raw s = repeated_bytes

-- {"b": [12, "é\n"], "a": -5}
abbrev payload : PyValue
payload = dict_value (
    entry (98 ∷ []) (list_value (item (int_value 12) (item (str_value (233 ∷ 10 ∷ [])) no_items)))
      (entry (97 ∷ []) (negative_int 4) no_entries))

-- {"a":-5,"b":[12,"é\n"]}, where the line break is written as an escape.
abbrev payload_text : Text
payload_text =
    123 ∷ 34 ∷ 97 ∷ 34 ∷ 58 ∷ 45 ∷ 53 ∷ 44 ∷ 34 ∷ 98 ∷ 34 ∷ 58 ∷ 91 ∷ 49 ∷ 50 ∷ 44 ∷ 34 ∷ 233 ∷ 92
    ∷ 110 ∷ 34 ∷ 93 ∷ 125 ∷ []

payload_written : encode_state payload ≡ encoded payload_text
unfolding encode_state
payload_written = refl

surrogate_refused : encode_state (str_value (0xD800 ∷ [])) ≡ refused not_finite_or_unicode
unfolding encode_state
surrogate_refused = refl

payload-IsState : IsState reader payload
unfolding IsState encode_all write_string
payload-IsState = (
  ((inl (omega arith), tt), refl),
  (refl, ((inl (omega arith), (inl (omega arith), tt)), tt)),
  (((inl (omega arith), tt), refl), refl, tt),
)

payload-IsKeyed : IsKeyed payload
unfolding IsKeyed
payload-IsKeyed = (refl, (tt, (tt, tt)), (refl, tt, tt))

payload_shallow : nesting payload ≤ max_depth
unfolding nesting
payload_shallow = omega arith

encode_state_accepted_example :
    (t : Text) × (encode_state payload ≡ encoded t)
    × (aep_json_member_check reader (encode_all t) ≡ finished (reader.decodes (encode_all t)))
encode_state_accepted_example =
    encode_state_accepted reader payload payload-IsState payload-IsKeyed payload_shallow
