-- ===== src/StateCodec/Check/Sound.antt =====
use research_paper_aep.StateCodec.Check.{
  Check, by_first_byte, close_or, close_or_comma, expect, max_depth, opened, parse_elements,
  parse_members, parse_value,
}
use research_paper_aep.Base.{
  List, [], ap, arith, length, length-append, ltb, nat_eq, nat_eq→eq, refl, suc, sym, true, zero, ℕ,
  ◌*◌, ◌++◌, ◌+◌, ◌<◌, ◌∙◌, ◌∷◌, ◌≡◌, ◌≤◌,
}
use research_paper_aep.StateCodec.{Bytes}
use research_paper_aep.StateCodec.Token.{parse_name, skip_whitespace}
use research_paper_aep.StateCodec.Tree.{
  Elements, IsElements, IsJson, IsMembers, IsSpace, Json, Members, Reader, array, depth,
  depth_elements, depth_members, distinct, distinct_elements, distinct_members, empty_array,
  empty_object, last_element, last_member, next_element, next_member, object, print_elements,
  print_members, print_value,
}
use research_paper_aep.StateCodec.Check.Found.{
  Ensures, Ensures-bind, Ensures-if, Ensures-map, Ensures-required, Ensures-unseen, IsFound,
  expect_sound, holds, is_invalid, length-skip_whitespace, scalar-Ensures, skipped,
}
use research_paper_aep.StateCodec.Tree.Lengths.{length-print_string, length-print_value}
use research_paper_aep.StateCodec.Token.Strings.{Char, parse_name_sound, print_string}

-- Whatever aep_json_member_check of aep_core/core/state_codec.py accepts is the text of a tree with
-- distinct names, and it always ends with an answer.

pub skip_whitespace_twice : (ts : Bytes) → skip_whitespace (skip_whitespace ts) ≡ skip_whitespace ts
unfolding skip_whitespace
skip_whitespace_twice [] = refl
skip_whitespace_twice (b ∷ ts) = ground (arith, skip_whitespace_twice ts)

opened-Ensures :
    {P : Bytes → Type 0} (d close : ℕ) (loop : Bytes → Check Bytes) (ts : Bytes)
    → ((k : Bytes) → skip_whitespace ts ≡ close ∷ k → P k)
    → Ensures P (loop (skip_whitespace ts))
    → Ensures P (opened d close loop ts)
unfolding opened
opened-Ensures d close loop ts p q =
    Ensures-if (ltb max_depth d) (λ _. is_invalid) (λ _. close_lem (skip_whitespace ts) p q)
  where
    close_lem :
        {P : Bytes → Type 0} (us : Bytes)
        → ((k : Bytes) → us ≡ close ∷ k → P k)
        → Ensures P (loop us)
        → Ensures P (close_or close loop us)
    close_lem [] p q = is_invalid
    close_lem (b ∷ k) p q =
        Ensures-if (nat_eq b close) (λ e. holds (p k (ap (λ c. c ∷ k) (nat_eq→eq b close e))))
          (λ _. q)

close_or_comma-Ensures :
    {P : Bytes → Type 0} (close : ℕ) (again : Bytes → Check Bytes) (ts : Bytes)
    → ((k : Bytes) → ts ≡ close ∷ k → P k)
    → ((k : Bytes) → ts ≡ 44 ∷ k → Ensures P (again (skip_whitespace k)))
    → Ensures P (close_or_comma close again ts)
close_or_comma-Ensures close again [] p q = is_invalid
close_or_comma-Ensures close again (b ∷ k) p q =
    Ensures-if (nat_eq b close) (λ e. holds (p k (ap (λ c. c ∷ k) (nat_eq→eq b close e))))
      (λ _.
        Ensures-if (nat_eq b 44) (λ e. q k (ap (λ c. c ∷ k) (nat_eq→eq b 44 e))) (λ _. is_invalid))

-- What the loops have found, whose contents stand one level deeper.
abbrev ReachedElements : Reader → ℕ → Bytes → Bytes → Type 0
ReachedElements r d ts k =
    (es : Elements) × IsElements r es
    × (distinct_elements es ≡ true)
    × (d + suc (depth_elements es) ≤ max_depth)
    × (ts ≡ print_elements es k)

abbrev ReachedMembers : Reader → ℕ → List Bytes → Bytes → Bytes → Type 0
ReachedMembers r d seen ts k =
    (ms : Members) × IsMembers r ms
    × (distinct_members seen ms ≡ true)
    × (d + suc (depth_members ms) ≤ max_depth)
    × (ts ≡ print_members ms k)

-- Where space was skipped before a printed thing, it is printed before it.
pub gap_before :
    (ts us : Bytes) → skip_whitespace ts ≡ us → (w : Bytes) × IsSpace w × (ts ≡ w ++ us)
gap_before ts us e = let (w, p, q) = skipped ts in (w, p, q ∙ ap (λ k. w ++ k) e)

-- The bracket c before what follows.
behind : (b c : ℕ) (ts us : Bytes) → nat_eq b c ≡ true → ts ≡ us → b ∷ ts ≡ c ∷ us
behind b c ts us e q = ground arith

-- The bytes of one member, from the equations of the reads.
member_text :
    (cs : List Char) (v : Json) (ts named w value w' left on : Bytes)
    → ts ≡ print_string cs named
    → named ≡ w ++ (58 ∷ value)
    → value ≡ w' ++ print_value v left
    → left ≡ on
    → ts ≡ print_string cs (w ++ (58 ∷ (w' ++ print_value v on)))
member_text cs v ts named w value w' left on p q t e =
    p
    ∙ ap (print_string cs) (q ∙ ap (λ ks. w ++ (58 ∷ ks)) (t ∙ ap (λ ks. w' ++ print_value v ks) e))

member_lengths :
    (cs : List Char) (v : Json) (ts named w value w' left : Bytes)
    → ts ≡ print_string cs named
    → named ≡ w ++ (58 ∷ value)
    → value ≡ w' ++ print_value v left
    → (length value + 1 < length ts) × (length left < length value)
member_lengths cs v ts named w value w' left p q t =
    let names = length-print_string cs named in
    (
      omega (arith, ap length p, ap length q, names, length-append w (58 ∷ value)),
      omega (arith, ap length t, length-append w' (print_value v left), length-print_value v left),
    )

module _ (r : Reader) where
  by_first_byte-Ensures :
      (f d : ℕ) (ts : Bytes)
      → d ≤ max_depth
      → 2 * length ts < suc f
      → ((us : Bytes)
          → 2 * length us + 1 < f
          → Ensures (ReachedMembers r d [] us) (parse_members r f d [] us))
      → ((us : Bytes)
          → 2 * length us + 1 < f
          → Ensures (ReachedElements r d (skip_whitespace us)) (parse_elements r f d us))
      → Ensures (IsFound r d ts) (
          by_first_byte r
            (opened d 125 (λ k. parse_members r f d [] k))
            (opened d 93 (λ k. parse_elements r f d k))
            ts)
  unfolding print_value IsJson distinct depth
  by_first_byte-Ensures f d [] b h members elements = is_invalid
  by_first_byte-Ensures f d (c ∷ ts) b h members elements =
      let short = length-skip_whitespace ts in
      Ensures-if (nat_eq c 123)
        (λ e.
          opened-Ensures d 125 _ ts
            (λ k q.
              let (w, p, t) = gap_before ts (125 ∷ k) q in
              (empty_object w, p, refl, omega arith, behind c 123 ts _ e t))
            (Ensures-map (members (skip_whitespace ts) (omega arith)) λ k (ms, m, dis, dep, q).
              let (w, p, t) = gap_before ts _ q in
              (object w ms, (p, m), dis, dep, behind c 123 ts _ e t)))
        λ _.
          Ensures-if (nat_eq c 91)
            (λ e.
              opened-Ensures d 93 _ ts
                (λ k q.
                  let (w, p, t) = gap_before ts (93 ∷ k) q in
                  (empty_array w, p, refl, omega arith, behind c 91 ts _ e t))
                (Ensures-map (elements (skip_whitespace ts) (omega arith)) λ k (es, m, dis, dep, q).
                  let (w, p, t) = gap_before ts _ (sym (skip_whitespace_twice ts) ∙ q) in
                  (array w es, (p, m), dis, dep, behind c 91 ts _ e t)))
            λ _. scalar-Ensures r d b c ts

  mutual
    unfolding parse_value print_value IsJson distinct depth

    pub parse_value-Ensures :
        (f d : ℕ) (ts : Bytes)
        → 2 * length ts < f
        → Ensures (IsFound r d (skip_whitespace ts)) (parse_value r f d ts)
    parse_value-Ensures zero d ts h = absurd (omega arith)
    parse_value-Ensures (suc f) d ts h =
        Ensures-if (ltb max_depth d) (λ _. is_invalid)
          λ e.
            by_first_byte-Ensures f d (skip_whitespace ts) (ground arith)
              (omega (arith, length-skip_whitespace ts)) (λ us. parse_members-Ensures f d [] us)
              (λ us. parse_elements-Ensures f d us)

    parse_elements-Ensures :
        (f d : ℕ) (ts : Bytes)
        → 2 * length ts + 1 < f
        → Ensures (ReachedElements r d (skip_whitespace ts)) (parse_elements r f d ts)
    parse_elements-Ensures zero d ts h = absurd (omega arith)
    parse_elements-Ensures (suc f) d ts h =
        Ensures-bind (parse_value-Ensures f (d + 1) ts (omega arith)) λ left (v, j, dis, dep, q).
          close_or_comma-Ensures 93 (λ k. parse_elements r f d k) (skip_whitespace left)
            (λ k t.
              let (w, p, u) = gap_before left _ t in
              (last_element v w, (j, p), dis, omega arith, q ∙ ap (print_value v) u))
            (λ k t.
              let (w, p, u) = gap_before left _ t in
              let bound : 2 * length (skip_whitespace k) + 1 < f = omega (
                arith,
                ap length q,
                length-print_value v left,
                length-skip_whitespace ts,
                length-skip_whitespace left,
                ap length t,
                length-skip_whitespace k,
              ) in
              Ensures-map (parse_elements-Ensures f d (skip_whitespace k) bound)
                λ k' (es, m, dis', dep', q').
                  let (w', p', u') = gap_before k _ (sym (skip_whitespace_twice k) ∙ q') in
                  (
                    next_element v w w' es,
                    (j, p, p', m),
                    rw dis dis',
                    ground arith,
                    q ∙ ap (print_value v) (u ∙ ap (λ ks. w ++ (44 ∷ ks)) u'),
                  ))

    parse_members-Ensures :
        (f d : ℕ) (seen : List Bytes) (ts : Bytes)
        → 2 * length ts + 1 < f
        → Ensures (ReachedMembers r d seen ts) (parse_members r f d seen ts)
    parse_members-Ensures zero d seen ts h = absurd (omega arith)
    parse_members-Ensures (suc f) d seen ts h =
        Ensures-bind (Ensures-required (parse_name r.decode_name ts)) λ (s, named) e.
          let (cs, chars, name, p) = parse_name_sound r.decode_name ts named s e in
          Ensures-bind (Ensures-unseen s seen) λ _ new.
            Ensures-bind (Ensures-required (expect 58 (skip_whitespace named))) λ value e'.
              let (w, ws, q) =
                gap_before named _ (expect_sound 58 (skip_whitespace named) value e') in
              let shorter : length value + 1 < length ts = omega (
                arith,
                ap length p,
                ap length q,
                length-print_string cs named,
                length-append w (58 ∷ value),
              ) in
              Ensures-bind (parse_value-Ensures f (d + 1) value (omega arith))
                λ left (v, j, dis, dep, t).
                  let (w', ws', t') = gap_before value _ t in
                  let shorter' = member_lengths cs v ts named w value w' left p q t' in
                  close_or_comma-Ensures 125 (λ k. parse_members r f d (s ∷ seen) k)
                    (skip_whitespace left)
                    (λ k c.
                      let (u, us, c') = gap_before left _ c in
                      (
                        last_member cs s w w' v u,
                        (chars, name, ws, ws', j, us),
                        rw (new, dis) refl,
                        omega arith,
                        member_text cs v ts named w value w' left _ p q t' c',
                      ))
                    (λ k c.
                      let (u, us, c') = gap_before left _ c in
                      let (u', us', c'') = skipped k in
                      let bound : 2 * length (skip_whitespace k) + 1 < f = omega (
                        arith,
                        length-skip_whitespace left,
                        ap length c,
                        length-skip_whitespace k,
                        shorter'.0,
                        shorter'.1,
                      ) in
                      Ensures-map (parse_members-Ensures f d (s ∷ seen) (skip_whitespace k) bound)
                        λ k' (ms, m, dis', dep', q'). (
                          next_member cs s w w' v u u' ms,
                          (chars, name, ws, ws', j, us, us', m),
                          rw (new, dis) dis',
                          ground arith,
                          member_text cs v ts named w value w' left _ p q t'
                              (c' ∙ ap (λ ks. u ++ (44 ∷ ks)) (c'' ∙ ap (λ ks. u' ++ ks) q')),
                        ))
