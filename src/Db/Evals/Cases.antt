-- ===== src/Db/Evals/Cases.antt =====
-- packages/db/src/db/repositories/eval_repository.py: the cases, one row for each key.
use governed_agent_platform.Prelude.{
  String, ◌≡◌, refl, sym, ap, ◌∙◌, subst, Bool, true, false, Bool-cases, Option, none, some, List,
  [], ◌∷◌, ◌++◌, map, map-append, find, update, All, Pairwise, All-append, ◌==◌, string_eq, id_eq,
  eq_self, arith, find_append_lem, find_true_lem, inl, inr,
}
use governed_agent_platform.Prelude.Exec.{Result, ok, raised, pure, ◌>>◌}
use governed_agent_platform.Db.Evals.{
  EvalCaseRow, EvalTables, EvalError, EvalSession, IsEvalSession, has_key, is_case, with_case,
  case_found, get_or_create_eval_case,
}

-- A change of some items that keeps a test: what was found is changed where it is one of them.
find_changed_lem :
    {A : Type 0} (p q : A → Bool) (change : A → A)
    → ((x : A) → p (change x) ≡ p x)
    → (xs : List A) (x : A) → find p xs ≡ some x
    → q x ≡ true
    → find p (update q change xs) ≡ some (change x)
unfolding update
find_changed_lem p q change keeps [] x h k = ground arith
find_changed_lem p q change keeps (y ∷ ys) x h k =
    ground (arith, keeps y, keeps x, find_changed_lem p q change keeps ys x)

-- No two cases have one key.
abbrev pub AreUnique : List EvalCaseRow → Type 0
AreUnique cases = Pairwise (λ a b. (a == b) ≡ false) (map (λ c. c.key) cases)

keys_lem :
    (q : EvalCaseRow → Bool) (change : EvalCaseRow → EvalCaseRow)
    → ((c : EvalCaseRow) → (change c).key ≡ c.key)
    → (cases : List EvalCaseRow) → map (λ c. c.key) (update q change cases) ≡ map (λ c. c.key) cases
unfolding update
keys_lem q change keeps [] = refl
keys_lem q change keeps (c ∷ cases) = ground (arith, keeps c, keys_lem q change keeps cases)

-- A key that no case has is another one than each.
unseen_lem :
    (key : String) (cases : List EvalCaseRow)
    → find (has_key key) cases ≡ none
    → All (λ k. (k == key) ≡ false) (map (λ c. c.key) cases)
unseen_lem key [] h = tt
unseen_lem key (c ∷ cases) h = elim (Bool-cases (c.key == key)) [
  | inl same ↦ absurd (ground arith)
  | inr differs ↦ (differs, unseen_lem key cases (ground arith))
]

Pairwise-last :
    {A : Type 0} (R : A → A → Type 0) (xs : List A) (x : A)
    → Pairwise R xs
    → All (λ y. R y x) xs
    → Pairwise R (xs ++ x ∷ [])
Pairwise-last R [] x h k = (tt, tt)
Pairwise-last R (y ∷ ys) x h k =
    (All-append (R y) ys (x ∷ []) h.0 (k.0, tt), Pairwise-last R ys x h.1 k.1)

module _ {W : Type 0} (s : EvalSession W) (laws : IsEvalSession s) where
  abbrev pub cases_of : W → List EvalCaseRow
  cases_of w = (s.tables w).eval_cases

  -- The case that the call answers is the one with the key, as it was asked for, and the keys stay
  -- unique.
  abbrev pub Kept :
      String
      → String
      → Option String
      → Option String
      → Option (List String)
      → Result EvalError EvalCaseRow × W
      → Type 0
  Kept key input_text description expected tags (raised e, v) = ⊥
  Kept key input_text description expected tags (ok c, v) =
      (find (has_key key) (cases_of v) ≡ some c)
      × (AreUnique (cases_of v)
          × ((c.key ≡ key)
              × ((c.input_text ≡ input_text)
                  × ((c.description ≡ description)
                      × ((c.expected_behavior ≡ expected) × (c.tags ≡ tags))))))

  -- A row that is returned after a flush, where the rows are as they should be.
  flushed_Kept :
      (key input_text : String) (description expected : Option String) (tags : Option (List String))
      (c : EvalCaseRow) (change : EvalTables → EvalTables) (w : W)
      → Kept key input_text description expected tags (ok c, (s.flush (s.write change w)).1)
      → Kept key input_text description expected tags ((s.flush >> pure c) (s.write change w))
  flushed_Kept key input_text description expected tags c change w h =
      rw (laws.flush_returns (s.write change w)) h

  case_found-Kept :
      (o : Option EvalCaseRow) (key input_text : String) (description expected : Option String)
      (tags : Option (List String)) (w : W)
      → find (has_key key) (cases_of w) ≡ o
      → AreUnique (cases_of w)
      → Kept key input_text description expected tags
          (case_found s o key input_text description expected tags w)
  case_found-Kept none key input_text description expected tags w missing unique =
      let c : EvalCaseRow = record {
        id = s.uuid4 w;
        key = key;
        input_text = input_text;
        description = description;
        expected_behavior = expected;
        tags = tags;
        is_active = true;
      } in
      let change : EvalTables → EvalTables =
        λ t. record t { eval_cases = t.eval_cases ++ c ∷ [] } in
      let seen = ap (λ t. t.eval_cases) (laws.writes change w) in
      flushed_Kept key input_text description expected tags c change w (
        ap (find (has_key key)) seen
            ∙ find_append_lem (has_key key) (cases_of w) c missing (eq_self key),
        (
          subst AreUnique (sym seen) (
              subst (Pairwise (λ a b. (a == b) ≡ false))
                (sym (map-append (λ x. x.key) (cases_of w) (c ∷ [])))
                (Pairwise-last (λ a b. (a == b) ≡ false) (map (λ x. x.key) (cases_of w)) key unique
                  (unseen_lem key (cases_of w) missing))),
          (refl, (refl, (refl, (refl, refl)))),
        ),
      )
  case_found-Kept (some c) key input_text description expected tags w found unique =
      let assign = with_case input_text description expected tags in
      let change : EvalTables → EvalTables =
        λ t. record t { eval_cases = update (is_case c.id) assign t.eval_cases } in
      let seen = ap (λ t. t.eval_cases) (laws.writes change w) in
      flushed_Kept key input_text description expected tags (assign c) change w (
        ap (find (has_key key)) seen
            ∙ find_changed_lem (has_key key) (is_case c.id) assign (λ x. refl) (cases_of w) c found
                (eq_self c.id),
        (
          subst AreUnique (sym seen) (
              subst (Pairwise (λ a b. (a == b) ≡ false))
                (sym (keys_lem (is_case c.id) assign (λ x. refl) (cases_of w))) unique),
          (
            (string_eq.decides c.key key).0 (find_true_lem (has_key key) (cases_of w) c found),
            (refl, (refl, (refl, refl))),
          ),
        ),
      )

  -- Where no two cases have one key, `get_or_create_eval_case` answers a case with the key and the
  -- columns that it was given, the one that is found by the key afterwards, and still no two cases
  -- have one key. The session is as documented.
  pub get_or_create_eval_case-Kept :
      (key input_text : String) (description expected : Option String) (tags : Option (List String))
      (w : W)
      → AreUnique (cases_of w)
      → Kept key input_text description expected tags
          (get_or_create_eval_case s key input_text description expected tags w)
  unfolding get_or_create_eval_case
  get_or_create_eval_case-Kept key input_text description expected tags w unique =
      case_found-Kept (find (has_key key) (cases_of w)) key input_text description expected tags w
        refl unique
