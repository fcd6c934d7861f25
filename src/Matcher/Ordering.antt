-- ===== src/Matcher/Ordering.antt =====
-- The matches of a preview: every enabled rule that fits, in the order of priority and name.
use relay_scope.Base.{
  suc, ◌≡◌, ◌⊎◌, ◌<◌, sym, subst, ap, not, Bool, Option, map, All, ==_iff, refl, inl, inr, true,
  false, none, some, List, [], ◌∷◌, arith, Bool-cases, Option-cases, ltb, ◌==◌, if◌then◌else◌,
  length, ◌∙◌,
}
use mathlib.Core.List.Permᴰ
use mathlib.Core.List.{Permᴰ}
use relay_scope.Base.Texts.{Text, text_lt}
use relay_scope.Matcher.{
  Rule, CompiledRule, Match, match_rule, listed_before, insert_match, sort_matches, all_matches,
  conclude, preview,
}

text_lt_asym : (s t : Text) → text_lt s t ≡ true → text_lt t s ≡ false
unfolding text_lt
text_lt_asym [] [] h = refl
text_lt_asym [] (b ∷ t) h = refl
text_lt_asym (a ∷ s) [] h = cc
text_lt_asym (a ∷ s) (b ∷ t) h = elim (Bool-cases (a == b)) [
  | inl same ↦ ground (arith, same, text_lt_asym s t)
  | inr other ↦ ground (arith, other)
]

listed_before_asym : (m n : Match) → listed_before m n ≡ true → listed_before n m ≡ false
unfolding listed_before
listed_before_asym m n h = elim (Bool-cases (m.rule.priority == n.rule.priority)) [
  | inl same ↦ ground (arith, same, text_lt_asym m.rule.canonical_name n.rule.canonical_name)
  | inr other ↦ ground (arith, other)
]

-- No match is listed before the one in front of it.
abbrev pub IsOrdered : List Match → Type 0
IsOrdered [] = Unit
IsOrdered (m ∷ []) = Unit
IsOrdered (m ∷ n ∷ rest) = (listed_before n m ≡ false) × IsOrdered (n ∷ rest)

insert-IsOrdered : (m : Match) (ms : List Match) → IsOrdered ms → IsOrdered (insert_match m ms)
unfolding insert_match
insert-IsOrdered m [] h = tt
insert-IsOrdered m (n ∷ []) h = elim (Bool-cases (listed_before n m)) [
  | inl later ↦ rw later (listed_before_asym n m later, tt)
  | inr first ↦ rw first (first, tt)
]
insert-IsOrdered m (n ∷ k ∷ rest) h = elim (Bool-cases (listed_before n m)) [
  | inr first ↦ rw first (first, h)
  | inl later ↦ elim (Bool-cases (listed_before k m)) [
    | inl behind ↦
        let more = insert-IsOrdered m (k ∷ rest) h.1 in
        rw (later, behind) (h.0, (rw behind at more))
    | inr between ↦ rw (later, between) (listed_before_asym n m later, (between, h.1))
  ]
]

sort-IsOrdered : (ms : List Match) → IsOrdered (sort_matches ms)
unfolding sort_matches
sort-IsOrdered [] = tt
sort-IsOrdered (m ∷ rest) = insert-IsOrdered m (sort_matches rest) (sort-IsOrdered rest)

-- What a match says of its rule.
abbrev pub shown : Match → Rule × Text
shown m = (m.rule, m.explanation)

-- The enabled rules that match, with their explanations.
abbrev pub with_hit : Rule → Option Text → List (Rule × Text) → List (Rule × Text)
with_hit r none rest = rest
with_hit r (some e) rest = (r, e) ∷ rest

abbrev pub fitting : List CompiledRule → Text → List (Rule × Text)
fitting [] raw = []
fitting (c ∷ cs) raw =
    with_hit c.rule (if c.rule.enabled then match_rule c raw else none) (fitting cs raw)

shown-step :
    (r : Rule) (on : Bool) (hit : Option Text) (rest : List Match) (rows : List (Rule × Text))
    → map shown rest ≡ rows
    → map shown (
        if on
        then elim hit [
          | none ↦ rest
          | some e ↦ record { rule = r; primary = false; explanation = e } ∷ rest
        ]
        else rest)
      ≡ with_hit r (if on then hit else none) rows
shown-step r false hit rest rows same = same
shown-step r true none rest rows same = same
shown-step r true (some e) rest rows same = ap (λ xs. (r, e) ∷ xs) same

all_matches-shown :
    (cs : List CompiledRule) (raw : Text) → map shown (all_matches cs raw) ≡ fitting cs raw
unfolding all_matches
all_matches-shown [] raw = refl
all_matches-shown (c ∷ cs) raw =
    shown-step c.rule c.rule.enabled (match_rule c raw) (all_matches cs raw) (fitting cs raw)
      (all_matches-shown cs raw)

-- All matches are marked in the same way.
abbrev pub IsMarked : Bool → Match → Type 0
IsMarked b m = m.primary ≡ b

all_matches-IsMarked :
    (cs : List CompiledRule) (raw : Text) → All (IsMarked false) (all_matches cs raw)
unfolding all_matches
all_matches-IsMarked [] raw = tt
all_matches-IsMarked (c ∷ cs) raw =
    let rest = all_matches-IsMarked cs raw in
    elim (Bool-cases c.rule.enabled) [
      | inr off ↦ rw (off, all_matches) rest
      | inl on ↦ elim (Option-cases (match_rule c raw)) [
        | inl miss ↦ rw (on, miss, all_matches) rest
        | inr (e, hit) ↦ rw (on, hit, all_matches) (refl, rest)
      ]
    ]

insert-Perm :
    (m : Match) (ms : List Match) → Permᴰ (map shown (insert_match m ms)) (shown m ∷ map shown ms)
unfolding insert_match
insert-Perm m [] = Permᴰ.cons refl Permᴰ.nil
insert-Perm m (n ∷ rest) = elim (Bool-cases (listed_before n m)) [
  | inl later ↦ rw later (Permᴰ.trans (Permᴰ.cons refl (insert-Perm m rest)) (Permᴰ.swap refl refl))
  | inr first ↦ rw first (Permᴰ.refl (shown m ∷ shown n ∷ map shown rest))
]

sort-Perm : (ms : List Match) → Permᴰ (map shown (sort_matches ms)) (map shown ms)
unfolding sort_matches
sort-Perm [] = Permᴰ.nil
sort-Perm (m ∷ rest) =
    Permᴰ.trans (insert-Perm m (sort_matches rest)) (Permᴰ.cons refl (sort-Perm rest))

insert-IsMarked :
    (b : Bool) (m : Match) (ms : List Match)
    → IsMarked b m
    → All (IsMarked b) ms
    → All (IsMarked b) (insert_match m ms)
unfolding insert_match
insert-IsMarked b m [] h k = (h, tt)
insert-IsMarked b m (n ∷ rest) h k = elim (Bool-cases (listed_before n m)) [
  | inl later ↦ rw later (k.0, insert-IsMarked b m rest h k.1)
  | inr first ↦ rw first (h, k)
]

sort-IsMarked :
    (b : Bool) (ms : List Match) → All (IsMarked b) ms → All (IsMarked b) (sort_matches ms)
unfolding sort_matches
sort-IsMarked b [] h = tt
sort-IsMarked b (m ∷ rest) h =
    insert-IsMarked b m (sort_matches rest) h.0 (sort-IsMarked b rest h.1)

-- The greater priority is in front, and of equal ones no lesser name behind.
abbrev pub IsBefore : Match → Match → Type 0
IsBefore m n =
    (n.rule.priority < m.rule.priority)
    ⊎ ((m.rule.priority ≡ n.rule.priority)
        × (text_lt n.rule.canonical_name m.rule.canonical_name ≡ false))

abbrev pub IsFalling : List Match → Type 0
IsFalling [] = Unit
IsFalling (m ∷ []) = Unit
IsFalling (m ∷ n ∷ rest) = IsBefore m n × IsFalling (n ∷ rest)

before : (m n : Match) → listed_before n m ≡ false → IsBefore m n
unfolding listed_before
before m n h = elim (Bool-cases (n.rule.priority == m.rule.priority)) [
  | inl same ↦ inr (sym ((==_iff n.rule.priority m.rule.priority).0 same), ground (arith, same, h))
  | inr differs ↦ inl (ground (arith, differs, h))
]

falling : (ms : List Match) → IsOrdered ms → IsFalling ms
falling [] h = tt
falling (m ∷ []) h = tt
falling (m ∷ n ∷ rest) h = (before m n h.0, falling (n ∷ rest) h.1)

conclude_lem :
    (raw : Text) (ms : List Match)
    → IsOrdered ms
    → All (IsMarked false) ms
    → (map shown (conclude raw ms).matches ≡ map shown ms)
      × IsFalling (conclude raw ms).matches
      × ((conclude raw ms).ambiguous ≡ ltb 1 (length (map shown ms)))
      × All (IsMarked (not (conclude raw ms).ambiguous)) (conclude raw ms).matches
unfolding conclude
conclude_lem raw [] h k = (refl, tt, refl, tt)
conclude_lem raw (m ∷ []) h k = (refl, tt, refl, (refl, tt))
conclude_lem raw (m ∷ n ∷ rest) h k = (refl, falling (m ∷ n ∷ rest) h, ground arith, k)

length-Permᴰ : {xs ys : List (Rule × Text)} → Permᴰ xs ys → length xs ≡ length ys
length-Permᴰ Permᴰ.nil = refl
length-Permᴰ (Permᴰ.cons e p) = ap suc (length-Permᴰ p)
length-Permᴰ (Permᴰ.swap e f) = refl
length-Permᴰ (Permᴰ.trans p q) = length-Permᴰ p ∙ length-Permᴰ q

-- The matches of a preview, in another order, are the enabled rules that match the name, each once with its
-- explanation. They stand in the order of falling priority and, among equals, of names that do not fall. The preview is ambiguous
-- exactly if there are two or more, and else its match is the primary one; no match of an ambiguous one is.
pub preview_lem :
    (cs : List CompiledRule) (raw : Text)
    → Permᴰ (map shown (preview cs raw).matches) (fitting cs raw)
      × IsFalling (preview cs raw).matches
      × ((preview cs raw).ambiguous ≡ ltb 1 (length (fitting cs raw)))
      × All (IsMarked (not (preview cs raw).ambiguous)) (preview cs raw).matches
unfolding preview
preview_lem cs raw =
    let found = all_matches cs raw in
    let sorted = sort_matches found in
    let (same, order, ambiguous, marks) =
      conclude_lem raw sorted (sort-IsOrdered found)
        (sort-IsMarked false found (all_matches-IsMarked cs raw)) in
    let perm : Permᴰ (map shown sorted) (fitting cs raw) =
      subst (λ xs. Permᴰ (map shown sorted) xs) (all_matches-shown cs raw) (sort-Perm found) in
    (
      subst (λ xs. Permᴰ xs (fitting cs raw)) (sym same) perm,
      order,
      ambiguous ∙ ap (ltb 1) (length-Permᴰ perm),
      marks,
    )
