-- ===== src/Arguments/Accepted.antt =====
-- Which arguments `parse` of template_cpp/src/include/parser.hpp accepts.
use cs451_2021_project.Base.{
  ℕ, ◌∙◌, subst, ◌≡◌, ◌≤◌, ◌↔◌, refl, sym, ap, ap₂, arith, true, false, List, [], ◌∷◌, Option, none,
  some, length, ltb, Option-cases, inl, inr,
}
use cs451_2021_project.Arguments.{
  Parser, same_text, arg, is_positive_number, parse_id, parse_host_path, parse_output_path,
  parse_config_path, parse_internal, then_parse,
}

same_text_lem : (cs ds : List ℕ) → same_text cs ds ≡ true → cs ≡ ds
same_text_lem [] [] e = refl
same_text_lem [] (d ∷ ds) e = absurd (cc)
same_text_lem (c ∷ cs) [] e = absurd (cc)
same_text_lem (c ∷ cs) (d ∷ ds) e =
    ap₂ (λ x l. x ∷ l) (ground arith) (same_text_lem cs ds (ground arith))

same_text_refl : (cs : List ℕ) → same_text cs cs ≡ true
same_text_refl [] = refl
same_text_refl (c ∷ cs) = ground (arith, same_text_refl cs)

abbrev id_flag : List ℕ
id_flag = b'-' ∷ b'-' ∷ b'i' ∷ b'd' ∷ []

abbrev hosts_flag : List ℕ
hosts_flag = b'-' ∷ b'-' ∷ b'h' ∷ b'o' ∷ b's' ∷ b't' ∷ b's' ∷ []

abbrev output_flag : List ℕ
output_flag = b'-' ∷ b'-' ∷ b'o' ∷ b'u' ∷ b't' ∷ b'p' ∷ b'u' ∷ b't' ∷ []

-- The usage: `--id ID --hosts HOSTS --output OUTPUT CONFIG`, behind the program's name.
pub record IsUsage (stoul : List ℕ → Option ℕ) (argv : List (List ℕ)) (id : ℕ) : Type 0 where
  pub enough : 8 ≤ length argv
  pub id_first : arg argv 1 ≡ id_flag
  pub is_number : is_positive_number (arg argv 2) ≡ true
  pub fits : stoul (arg argv 2) ≡ some id
  pub hosts_next : arg argv 3 ≡ hosts_flag
  pub output_next : arg argv 5 ≡ output_flag

-- What the parser then holds.
abbrev pub filled : Parser → ℕ → Parser
filled p id = record p {
  id = id;
  hosts_path = arg p.argv 4;
  output_path = arg p.argv 6;
  config_path = arg p.argv 7;
}

parse_id_lem :
    (stoul : List ℕ → Option ℕ) (p : Parser) {q : Parser}
    → parse_id stoul p ≡ some q
    → (id : ℕ) × (arg p.argv 1 ≡ id_flag)
      × (is_positive_number (arg p.argv 2) ≡ true)
      × (stoul (arg p.argv 2) ≡ some id)
      × (q ≡ record p { id = id })
unfolding parse_id
parse_id_lem stoul p {q} e = elim (Option-cases (stoul (arg p.argv 2))) [
  | inl fails ↦ absurd (ground arith)
  | inr (id, reads) ↦
      (id, same_text_lem (arg p.argv 1) id_flag (ground arith), ground arith, reads, ground arith)
]

parse_host_path_lem :
    (p : Parser) {q : Parser}
    → parse_host_path p ≡ some q
    → (arg p.argv 3 ≡ hosts_flag) × (q ≡ record p { hosts_path = arg p.argv 4 })
unfolding parse_host_path
parse_host_path_lem p e = (same_text_lem (arg p.argv 3) hosts_flag (ground arith), ground arith)

parse_output_path_lem :
    (p : Parser) {q : Parser}
    → parse_output_path p ≡ some q
    → (arg p.argv 5 ≡ output_flag) × (q ≡ record p { output_path = arg p.argv 6 })
unfolding parse_output_path
parse_output_path_lem p e = (same_text_lem (arg p.argv 5) output_flag (ground arith), ground arith)

parse_config_path_lem :
    (p : Parser) {q : Parser}
    → p.with_config ≡ true
    → parse_config_path p ≡ some q
    → (8 ≤ length p.argv) × (q ≡ record p { config_path = arg p.argv 7 })
unfolding parse_config_path
parse_config_path_lem p c e = (ground arith, ground arith)

then_parse_cases :
    (next : Parser → Option Parser) (made : Option Parser) {q : Parser}
    → then_parse next made ≡ some q
    → (p : Parser) × (made ≡ some p) × (next p ≡ some q)
then_parse_cases next none e = absurd (cc)
then_parse_cases next (some p) e = (p, refl, e)

put_config : Parser → Parser
put_config p = record p { config_path = arg p.argv 7 }

put_output : Parser → Parser
put_output p = record p { output_path = arg p.argv 6 }

put_hosts : Parser → Parser
put_hosts p = record p { hosts_path = arg p.argv 4 }

accepted :
    (stoul : List ℕ → Option ℕ) (p q : Parser)
    → p.with_config ≡ true
    → parse_internal stoul p ≡ some q
    → (q ≡ filled p q.id) × IsUsage stoul p.argv q.id
unfolding parse_internal put_config put_output put_hosts
accepted stoul p q c e =
    let (p3, e3, e4) = then_parse_cases parse_config_path _ e in
    let (p2, e2, e3') = then_parse_cases parse_output_path _ e3 in
    let (p1, e1, e2') = then_parse_cases parse_host_path _ e2 in
    let (id, flag, number, reads, s1) = parse_id_lem stoul p e1 in
    let (hosts, s2) = parse_host_path_lem p1 e2' in
    let (output, s3) = parse_output_path_lem p2 e3' in
    let t2 = s2 ∙ ap put_hosts s1 in
    let t3 = s3 ∙ ap put_output t2 in
    let (size, s4) = parse_config_path_lem p3 (ap (λ x. x.with_config) t3 ∙ c) e4 in
    let all = s4 ∙ ap put_config t3 in
    let same : id ≡ q.id = sym (ap (λ x. x.id) all) in
    (
      subst (λ i. q ≡ filled p i) same all,
      record {
        enough = subst (λ l. 8 ≤ length l) (ap (λ x. x.argv) t3) size;
        id_first = flag;
        is_number = number;
        fits = subst (λ i. stoul (arg p.argv 2) ≡ some i) same reads;
        hosts_next = subst (λ l. arg l 3 ≡ hosts_flag) (ap (λ x. x.argv) s1) hosts;
        output_next = subst (λ l. arg l 5 ≡ output_flag) (ap (λ x. x.argv) t2) output;
      },
    )

usage :
    (stoul : List ℕ → Option ℕ) (p : Parser) (id : ℕ)
    → p.with_config ≡ true
    → IsUsage stoul p.argv id
    → parse_internal stoul p ≡ some (filled p id)
unfolding parse_internal parse_id parse_host_path parse_output_path parse_config_path
usage stoul p id c u =
    rw
      (
        le→not_ltb 3 (length p.argv) (omega (arith, u.enough)),
        u.id_first,
        u.is_number,
        u.fits,
        le→not_ltb 5 (length p.argv) (omega (arith, u.enough)),
        u.hosts_next,
        le→not_ltb 7 (length p.argv) (omega (arith, u.enough)),
        u.output_next,
        c,
        le→not_ltb 8 (length p.argv) u.enough,
      )
      refl
  where
    le→not_ltb : (n m : ℕ) → n ≤ m → ltb m n ≡ false
    le→not_ltb n m h = ground arith

-- Where a configuration is required, the arguments are accepted exactly if they are at least seven and, behind
-- the program's name, `--id`, a number of digits that fits, `--hosts`, a path, `--output`, a path, and the
-- configuration; the parser then holds that number and these paths.
pub parse_internal_iff :
    (stoul : List ℕ → Option ℕ) (p q : Parser)
    → p.with_config ≡ true
    → (parse_internal stoul p ≡ some q) ↔ ((q ≡ filled p q.id) × IsUsage stoul p.argv q.id)
parse_internal_iff stoul p q c =
    (accepted stoul p q c, λ u. usage stoul p q.id c u.1 ∙ ap some (sym u.0))
