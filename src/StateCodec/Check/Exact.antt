-- ===== src/StateCodec/Check/Exact.antt =====
use research_paper_aep.StateCodec.Check.{
  Check, aep_json_member_check, ambiguous, at_end, finished, good, invalid, out_of_fuel,
  parse_value, ◌>>=◌, ◌>>◌,
}
use research_paper_aep.Base.{
  Bool, [], append-nil, arith, false, if◌then◌else◌, length, refl, sym, true, ◌*◌, ◌+◌, ◌↔◌, ◌∙◌,
  ◌∷◌, ◌≡◌, ◌≢◌,
}
use research_paper_aep.StateCodec.{Bytes}
use research_paper_aep.StateCodec.Utf8.{aep_utf8_check}
use research_paper_aep.StateCodec.Token.{skip_whitespace}
use research_paper_aep.StateCodec.Tree.{Json, Reader, distinct}
use research_paper_aep.StateCodec.Check.Found.{Ensures, holds, length-skip_whitespace}
use research_paper_aep.StateCodec.Check.Sound.{
  gap_before, parse_value-Ensures, skip_whitespace_twice,
}
use research_paper_aep.StateCodec.Check.Complete.{IsTextOf, aep_json_member_check-verdict}

-- aep_json_member_check of aep_core/core/state_codec.py as a whole: it answers, and it accepts exactly
-- the texts without a repeated name.

if-good :
    (b : Bool) (m : Check (Unit {0}))
    → (if b then m else invalid) ≡ good tt
    → (b ≡ true) × (m ≡ good tt)
if-good true m h = (refl, h)
if-good false m h = cc

ends-good : (ts : Bytes) (b : Bool) → (at_end ts >> finished b) ≡ good tt → (ts ≡ []) × (b ≡ true)
ends-good [] true h = (refl, refl)
ends-good [] false h = cc
ends-good (c ∷ ts) b h = cc

-- What a good answer rests on.
Ensures-good :
    {P : Bytes → Type 0} (m : Check Bytes) (f : Bytes → Check (Unit {0}))
    → Ensures P m
    → (m >>= f) ≡ good tt
    → (k : Bytes) × P k × (f k ≡ good tt)
Ensures-good (good k) f (holds p) h = (k, p, h)
Ensures-good invalid f p h = cc
Ensures-good ambiguous f p h = cc
Ensures-good out_of_fuel f p h = cc

accepted_text :
    (r : Reader) (raw : Bytes)
    → aep_json_member_check r raw ≡ good tt
    → (v : Json) × IsTextOf r v raw × (distinct v ≡ true) × (r.decodes raw ≡ true)
unfolding aep_json_member_check
accepted_text r raw h =
    let (u, h') = if-good (aep_utf8_check raw) _ h in
    let (left, (v, j, dis, dep, q), h'') =
      Ensures-good (parse_value r (2 * length raw + 1) 0 (skip_whitespace raw)) _
        (parse_value-Ensures r (2 * length raw + 1) 0 (skip_whitespace raw)
          (omega (arith, length-skip_whitespace raw)))
        h' in
    let (e, t) = ends-good (skip_whitespace left) (r.decodes raw) h'' in
    let (w, p, s) = gap_before raw _ (sym (skip_whitespace_twice raw) ∙ q) in
    let (w', p', s') = gap_before left [] e in
    (
      v,
      record {
        encoded = u;
        before = w;
        behind = left;
        before-IsSpace = p;
        behind-IsSpace = rw (s' ∙ append-nil w') p';
        legal = j;
        within_depth = omega (arith, dep);
        whole = s;
      },
      dis,
      t,
    )

-- The check answers 0 exactly to the bytes that are UTF-8 and one value of JSON between white
-- space, nested at most 128 deep, no object of which has two members of one name, where tonumber
-- finds the numbers finite and cjson.decode reads the names and the whole.
pub aep_json_member_check_exact :
    (r : Reader) (raw : Bytes)
    → (aep_json_member_check r raw ≡ good tt)
      ↔ ((v : Json) × IsTextOf r v raw × (distinct v ≡ true) × (r.decodes raw ≡ true))
aep_json_member_check_exact r raw = (
  accepted_text r raw,
  λ (v, t, dis, dec). aep_json_member_check-verdict r v raw t ∙ rw (dis, dec) refl,
)

Ensures-answers :
    {P : Bytes → Type 0} (m : Check Bytes) (f : Bytes → Check (Unit {0}))
    → Ensures P m
    → ((k : Bytes) → f k ≢ out_of_fuel)
    → (m >>= f) ≢ out_of_fuel
Ensures-answers (good k) f p n h = n k h
Ensures-answers invalid f p n h = cc
Ensures-answers ambiguous f p n h = cc
Ensures-answers out_of_fuel f p n h = elim p [ ]

ends_answer : (ts : Bytes) (b : Bool) → (at_end ts >> finished b) ≢ out_of_fuel
ends_answer [] true h = cc
ends_answer [] false h = cc
ends_answer (c ∷ ts) b h = cc

if_answers :
    (b : Bool) (m : Check (Unit {0})) → m ≢ out_of_fuel → (if b then m else invalid) ≢ out_of_fuel
if_answers true m n h = n h
if_answers false m n h = cc

-- Twice the number of bytes and one is enough fuel for the readers: the check answers 0, 1 or -1 to
-- every text, however its brackets nest.
pub aep_json_member_check_answers :
    (r : Reader) (raw : Bytes) → aep_json_member_check r raw ≢ out_of_fuel
unfolding aep_json_member_check
aep_json_member_check_answers r raw = if_answers (aep_utf8_check raw) _ (
    Ensures-answers (parse_value r (2 * length raw + 1) 0 (skip_whitespace raw)) _
      (parse_value-Ensures r (2 * length raw + 1) 0 (skip_whitespace raw)
        (omega (arith, length-skip_whitespace raw)))
      (λ k. ends_answer (skip_whitespace k) (r.decodes raw)))
