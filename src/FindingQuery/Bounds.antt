-- ===== src/FindingQuery/Bounds.antt =====
-- What every findings filter that is accepted keeps to.
use nuclei_security_center.Common.{
  ℕ, suc, ◌+◌, ◌≤◌, ◌≡◌, refl, String, Bool, true, false, ◌&&◌, Option, none, some, List, [], ◌∷◌,
  ◌++◌, Chars, ltb, leb, length, all, length-append, arith, Bool-cases, Option-cases, inl, inr,
}
use nuclei_security_center.FindingQuery.{
  FindingCondition, FindingGroup, FindingQuery, FieldSpec, finding_fields, ops_for_kind,
  max_conditions, max_values_per_condition, max_filter_value_bytes,
}
use nuclei_security_center.FindingQuery.Compile.{
  GoLibrary, Bind, Sql, Compiled, compiled, invalid, byte_length, long_value,
  validate_filter_values,
}
use nuclei_security_center.FindingQuery.Where.{
  Where, where_clause, refused, Group, group_clause, group_refused, compile_spec, compile_condition,
  add_condition, build_group, add_group, build_groups, build_finding_where,
}

-- The values of a condition are few and short.
abbrev pub small_values : List Chars → Bool
small_values vs =
    leb (length vs) max_values_per_condition
    && all (λ v. leb (byte_length v) max_filter_value_bytes) vs

abbrev pub allows : Option FieldSpec → String → Bool
allows none op = false
allows (some spec) op = ops_for_kind spec.kind op

-- The field is one of the allowlist, the operator one of the field's, and the values are small.
abbrev pub admissible : FindingCondition → Bool
admissible c = allows (finding_fields c.field) c.op && small_values c.values

abbrev pub conditions_of : List FindingGroup → List FindingCondition
conditions_of [] = []
conditions_of (g ∷ gs) = g.conditions ++ conditions_of gs

long_value-none :
    (vs : List Chars)
    → long_value vs ≡ none
    → all (λ v. leb (byte_length v) max_filter_value_bytes) vs ≡ true
unfolding long_value
long_value-none [] h = refl
long_value-none (v ∷ vs) h = ground (arith, long_value-none vs)

validate_filter_values-none :
    (vs : List Chars) → validate_filter_values vs ≡ none → small_values vs ≡ true
unfolding validate_filter_values
validate_filter_values-none vs h = ground (arith, long_value-none vs)

all-append {ℓ} :
    {A : Type ℓ} (p : A → Bool) (xs ys : List A) → all p (xs ++ ys) ≡ all p xs && all p ys
all-append p [] ys = refl
all-append p (x ∷ xs) ys = ground (arith, all-append p xs ys)

-- Accepted conditions are those that `b` says yes of.
Only : Bool → Compiled → Type 0
Only b (invalid e) = Unit
Only b (compiled args q) = b ≡ true

keeps : (b : Bool) (x : Compiled) → b ≡ true → Only b x
unfolding Only
keeps b (invalid e) h = tt
keeps b (compiled args q) h = h

OnlyGroup : ℕ → List FindingCondition → Group → Type 0
OnlyGroup n cs (group_refused e) = Unit
OnlyGroup n cs (group_clause m args qs) =
    (m ≡ n + length cs) × (n ≤ max_conditions → m ≤ max_conditions) × (all admissible cs ≡ true)

module _ (go : GoLibrary) where
  compile_condition-Only :
      (c : FindingCondition) (args : List Bind) → Only (admissible c) (compile_condition go c args)
  unfolding compile_condition compile_spec Only
  compile_condition-Only c args = elim (Option-cases (finding_fields c.field)) [
    | inl e ↦ rw (compile_condition, e) tt
    | inr (spec, e) ↦ elim (Bool-cases (ops_for_kind spec.kind c.op)) [
      | inr p ↦ rw (compile_condition, e, compile_spec, p) tt
      | inl p ↦ elim (Option-cases (validate_filter_values c.values)) [
        | inr (x, k) ↦ rw (compile_condition, e, compile_spec, p, k) tt
        | inl k ↦
            keeps (admissible c) (compile_condition go c args)
              (ok_values c spec e p (validate_filter_values-none c.values k))
      ]
    ]
  ]
    where
      ok_values :
          (c : FindingCondition) (spec : FieldSpec)
          → finding_fields c.field ≡ some spec
          → ops_for_kind spec.kind c.op ≡ true
          → small_values c.values ≡ true
          → admissible c ≡ true
      ok_values c spec e p h = rw (e, p) h

  build_group-OnlyGroup :
      (cs : List FindingCondition) (n : ℕ) (args : List Bind)
      → OnlyGroup n cs (build_group go cs n args)
  unfolding build_group add_condition Only OnlyGroup
  build_group-OnlyGroup [] n args = (omega arith, λ h. h, refl)
  build_group-OnlyGroup (c ∷ cs) n args = elim (Bool-cases (ltb max_conditions (suc n))) [
    | inl p ↦ rw (p) tt
    | inr p ↦ rw (p) (
        step (compile_condition go c args) (compile_condition-Only c args)
          (build_group-OnlyGroup cs (suc n)) p)
  ]
    where
      add :
          (q : Sql) (g : Group)
          → admissible c ≡ true
          → OnlyGroup (suc n) cs g
          → ltb max_conditions (suc n) ≡ false
          → OnlyGroup n (c ∷ cs) (add_condition q g)
      add q (group_refused e) a h p = tt
      add q (group_clause m args qs) a (h, k, b) p = (omega arith, λ i. k (ground arith), rw (a) b)

      step :
          (x : Compiled)
          → Only (admissible c) x
          → ((pushed : List Bind) → OnlyGroup (suc n) cs (build_group go cs (suc n) pushed))
          → ltb max_conditions (suc n) ≡ false
          → OnlyGroup n (c ∷ cs) (elim x [
            | invalid e ↦ group_refused e
            | compiled pushed q ↦ add_condition q (build_group go cs (suc n) pushed)
          ])
      step (invalid e) a k p = tt
      step (compiled pushed q) a k p = add q (build_group go cs (suc n) pushed) a (k pushed) p

  OnlyWhere : ℕ → List FindingCondition → Where → Type 0
  OnlyWhere n cs (refused e) = Unit
  OnlyWhere n cs (where_clause args clauses) =
      (n ≤ max_conditions → n + length cs ≤ max_conditions) × (all admissible cs ≡ true)

  add_group-OnlyWhere :
      (n : ℕ) (cs : List FindingCondition) (qs : List Sql) (w : Where)
      → OnlyWhere n cs w
      → OnlyWhere n cs (add_group qs w)
  unfolding add_group OnlyWhere
  add_group-OnlyWhere n cs [] w h = h
  add_group-OnlyWhere n cs (q ∷ qs) (refused e) h = tt
  add_group-OnlyWhere n cs (q ∷ qs) (where_clause args clauses) h = h

  build_groups-OnlyWhere :
      (gs : List FindingGroup) (n : ℕ) (args : List Bind)
      → OnlyWhere n (conditions_of gs) (build_groups go gs n args)
  unfolding build_groups OnlyGroup OnlyWhere
  build_groups-OnlyWhere [] n args = (λ h. omega arith, refl)
  build_groups-OnlyWhere (g ∷ gs) n args =
      step (build_group go g.conditions n args) (build_group-OnlyGroup g.conditions n args)
        (build_groups-OnlyWhere gs)
    where
      join :
          (m : ℕ) (w : Where)
          → m ≡ n + length g.conditions
          → (n ≤ max_conditions → m ≤ max_conditions)
          → all admissible g.conditions ≡ true
          → OnlyWhere m (conditions_of gs) w
          → OnlyWhere n (g.conditions ++ conditions_of gs) w
      join m (refused e) i k a h = tt
      join m (where_clause last ws) i k a (j, b) = (
        λ h. omega (arith, j (k h), length-append g.conditions (conditions_of gs)),
        rw (all-append admissible g.conditions (conditions_of gs), a) b,
      )

      step :
          (x : Group)
          → OnlyGroup n g.conditions x
          → ((m : ℕ) (pushed : List Bind)
              → OnlyWhere m (conditions_of gs) (build_groups go gs m pushed))
          → OnlyWhere n (conditions_of (g ∷ gs)) (elim x [
            | group_refused e ↦ refused e
            | group_clause m pushed qs ↦ add_group qs (build_groups go gs m pushed)
          ])
      step (group_refused e) h k = tt
      step (group_clause m pushed qs) (i, j, a) k =
          add_group-OnlyWhere n (conditions_of (g ∷ gs)) qs (build_groups go gs m pushed)
            (join m (build_groups go gs m pushed) i j a (k m pushed))

  accepted_only :
      (gs : List FindingGroup) (w : Where) (pushed : List Bind) (clauses : List (List Sql))
      → w ≡ where_clause pushed clauses
      → OnlyWhere 0 (conditions_of gs) w
      → (length (conditions_of gs) ≤ max_conditions) × (all admissible (conditions_of gs) ≡ true)
  unfolding OnlyWhere
  accepted_only gs (refused e) pushed clauses h k = ground arith
  accepted_only gs (where_clause p c) pushed clauses h (k, a) = (omega (arith, k (omega arith)), a)

  -- A filter that is accepted has at most 60 conditions in all its groups, and each of them names a
  -- field of the allowlist, an operator of that field, and at most 100 values of at most 256 bytes.
  pub build_finding_where-admissible :
      (q : FindingQuery) (args pushed : List Bind) (clauses : List (List Sql))
      → build_finding_where go q args ≡ where_clause pushed clauses
      → (length (conditions_of q.groups) ≤ max_conditions)
        × (all admissible (conditions_of q.groups) ≡ true)
  unfolding build_finding_where
  build_finding_where-admissible q args pushed clauses h =
      accepted_only q.groups (build_groups go q.groups 0 args) pushed clauses h
        (build_groups-OnlyWhere q.groups 0 args)
