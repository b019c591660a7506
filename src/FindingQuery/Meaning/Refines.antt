-- ===== src/FindingQuery/Meaning/Refines.antt =====
-- A clause that `buildFindingWhere` makes selects exactly what the query asks.
use nuclei_security_center.Common.{
  ℕ, suc, ◌≡◌, refl, sym, ap, ◌∙◌, Bool, true, false, ◌&&◌, ◌||◌, List, [], ◌∷◌, ◌++◌, append_assoc,
  append-nil, ltb, any, all, arith, Bool-cases, inl, inr,
}
use nuclei_security_center.FindingQuery.{
  FindingCondition, FindingGroup, FindingQuery, max_conditions,
}
use nuclei_security_center.FindingQuery.Compile.{GoLibrary, Bind, Sql, Compiled, compiled, invalid}
use nuclei_security_center.FindingQuery.Where.{
  Where, where_clause, refused, Group, group_clause, group_refused, compile_condition,
  add_condition, build_group, add_group, build_groups, build_finding_where,
}
use nuclei_security_center.FindingQuery.Rows.{
  Finding, Collation, holds, evaluate, all_hold, some_clause, selects,
}
use nuclei_security_center.FindingQuery.Meaning.{
  asks_condition, asks_some, non_empty_groups, keep_group, asks,
}
use nuclei_security_center.FindingQuery.Meaning.Leaves.{Means}
use nuclei_security_center.FindingQuery.Meaning.Conditions.{condition-Means}

module _ (go : GoLibrary) (collation : Collation) (f : Finding) where
  abbrev is_nil {ℓ} : {A : Type ℓ} → List A → Bool
  is_nil [] = true
  is_nil (x ∷ xs) = false

  -- The same of a group's conditions, each of which leaves a clause.
  abbrev GroupMeans : List Bind → Group → List FindingCondition → Type 0
  GroupMeans args (group_refused e) cs = Unit
  GroupMeans args (group_clause n pushed qs) cs =
      (more : List Bind) × (pushed ≡ args ++ more)
      × (is_nil qs ≡ is_nil cs)
      × ((rest : List Bind)
          → all_hold collation f (pushed ++ rest) qs ≡ all (asks_condition go collation f) cs)

  add_condition-GroupMeans :
      (args pushed : List Bind) (q : Sql) (c : FindingCondition) (cs : List FindingCondition)
      (g : Group)
      → Means collation f args (compiled pushed q) (asks_condition go collation f c)
      → GroupMeans pushed g cs
      → GroupMeans args (add_condition q g) (c ∷ cs)
  unfolding add_condition all_hold
  add_condition-GroupMeans args pushed q c cs (group_refused e) h k = tt
  add_condition-GroupMeans args pushed q c cs (group_clause n last qs) (m, e, h) (k, i, z, hs) = (
    m ++ k,
    i ∙ ap (λ l. l ++ k) e ∙ append_assoc args m k,
    refl,
    λ rest. rw (hs rest) (ap (λ b. b && all (asks_condition go collation f) cs) (here rest)),
  )
    where
      here :
          (rest : List Bind)
          → holds (evaluate collation f (last ++ rest) q) ≡ asks_condition go collation f c
      here rest = rw (i, append_assoc pushed k rest) (h (k ++ rest))

  build_group-GroupMeans :
      (cs : List FindingCondition) (n : ℕ) (args : List Bind)
      → GroupMeans args (build_group go cs n args) cs
  unfolding build_group all_hold
  build_group-GroupMeans [] n args = ([], sym (append-nil args), refl, λ rest. refl)
  build_group-GroupMeans (c ∷ cs) n args = elim (Bool-cases (ltb max_conditions (suc n))) [
    | inl p ↦ rw (p) tt
    | inr p ↦ rw (p) (
        step (compile_condition go c args) (condition-Means go collation f c args)
          (build_group-GroupMeans cs (suc n)))
  ]
    where
      step :
          (x : Compiled)
          → Means collation f args x (asks_condition go collation f c)
          → ((pushed : List Bind) → GroupMeans pushed (build_group go cs (suc n) pushed) cs)
          → GroupMeans args
              (elim x [
                | invalid e ↦ group_refused e
                | compiled pushed q ↦ add_condition q (build_group go cs (suc n) pushed)
              ])
              (c ∷ cs)
      step (invalid e) h k = tt
      step (compiled pushed q) h k =
          add_condition-GroupMeans args pushed q c cs (build_group go cs (suc n) pushed) h
            (k pushed)

  abbrev asks_any : List (List FindingCondition) → Bool
  asks_any gs = any (all (asks_condition go collation f)) gs

  -- The same of the groups, of which those without conditions leave no clause.
  abbrev WhereMeans : List Bind → Where → List (List FindingCondition) → Type 0
  WhereMeans args (refused e) gs = Unit
  WhereMeans args (where_clause pushed clauses) gs =
      (more : List Bind) × (pushed ≡ args ++ more)
      × (is_nil clauses ≡ is_nil gs)
      × ((rest : List Bind) → some_clause collation f (pushed ++ rest) clauses ≡ asks_any gs)

  add_group-WhereMeans :
      (args pushed m : List Bind) (qs : List Sql) (cs : List FindingCondition)
      (gs : List (List FindingCondition)) (w : Where)
      → pushed ≡ args ++ m
      → is_nil qs ≡ is_nil cs
      → ((rest : List Bind)
          → all_hold collation f (pushed ++ rest) qs ≡ all (asks_condition go collation f) cs)
      → WhereMeans pushed w gs
      → WhereMeans args (add_group qs w) (keep_group go collation f cs gs)
  unfolding add_group some_clause
  add_group-WhereMeans args pushed m [] [] gs (refused e) i z h k = tt
  add_group-WhereMeans args pushed m [] [] gs (where_clause last ws) i z h (k, j, y, hs) =
      (m ++ k, j ∙ ap (λ l. l ++ k) i ∙ append_assoc args m k, y, hs)
  add_group-WhereMeans args pushed m [] (c ∷ cs) gs w i z h k = ground arith
  add_group-WhereMeans args pushed m (q ∷ qs) [] gs w i z h k = ground arith
  add_group-WhereMeans args pushed m (q ∷ qs) (c ∷ cs) gs (refused e) i z h k = tt
  add_group-WhereMeans args pushed m (q ∷ qs) (c ∷ cs) gs (where_clause last ws) i z h
        (k, j, y, hs) =
      (
        m ++ k,
        j ∙ ap (λ l. l ++ k) i ∙ append_assoc args m k,
        refl,
        λ rest. rw (hs rest) (ap (λ b. b || asks_any gs) (here rest)),
      )
    where
      here :
          (rest : List Bind)
          → all_hold collation f (last ++ rest) (q ∷ qs)
            ≡ all (asks_condition go collation f) (c ∷ cs)
      here rest =
          ap (λ l. all_hold collation f l (q ∷ qs))
            (ap (λ l. l ++ rest) j ∙ append_assoc pushed k rest)
          ∙ h (k ++ rest)

  build_groups-WhereMeans :
      (gs : List FindingGroup) (n : ℕ) (args : List Bind)
      → WhereMeans args (build_groups go gs n args) (non_empty_groups go collation f gs)
  unfolding build_groups some_clause
  build_groups-WhereMeans [] n args = ([], sym (append-nil args), refl, λ rest. refl)
  build_groups-WhereMeans (g ∷ gs) n args =
      step (build_group go g.conditions n args) (build_group-GroupMeans g.conditions n args)
        (build_groups-WhereMeans gs)
    where
      step :
          (x : Group)
          → GroupMeans args x g.conditions
          → ((m : ℕ) (pushed : List Bind)
              → WhereMeans pushed
                  (build_groups go gs m pushed)
                  (non_empty_groups go collation f gs))
          → WhereMeans args
              (elim x [
                | group_refused e ↦ refused e
                | group_clause m pushed qs ↦ add_group qs (build_groups go gs m pushed)
              ])
              (keep_group go collation f g.conditions (non_empty_groups go collation f gs))
      step (group_refused e) h k = tt
      step (group_clause m pushed qs) (more, i, z, h) k =
          add_group-WhereMeans args pushed more qs g.conditions (non_empty_groups go collation f gs)
            (build_groups go gs m pushed) i z h (k m pushed)

  selects-asks_some :
      (binds : List Bind) (clauses : List (List Sql)) (gs : List (List FindingCondition))
      → is_nil clauses ≡ is_nil gs
      → some_clause collation f binds clauses ≡ asks_any gs
      → selects collation f binds clauses ≡ asks_some go collation f gs
  unfolding selects
  selects-asks_some binds [] [] e h = refl
  selects-asks_some binds [] (g ∷ gs) e h = ground arith
  selects-asks_some binds (q ∷ qs) [] e h = ground arith
  selects-asks_some binds (q ∷ qs) (g ∷ gs) e h = h

  selects-WhereMeans :
      (q : FindingQuery) (args : List Bind) (w : Where) (pushed : List Bind)
      (clauses : List (List Sql))
      → w ≡ where_clause pushed clauses
      → WhereMeans args w (non_empty_groups go collation f q.groups)
      → selects collation f pushed clauses ≡ asks go collation f q
  unfolding asks
  selects-WhereMeans q args (refused x) pushed clauses e h = ground arith
  selects-WhereMeans q args (where_clause p c) pushed clauses e (m, i, z, h) =
      let ep : p ≡ pushed = ground arith in
      let ec : c ≡ clauses = ground arith in
      rw (← ep, ← ec)
        (selects-asks_some p c (non_empty_groups go collation f q.groups) z
          (ap (λ l. some_clause collation f l c) (sym (append-nil p)) ∙ h []))

  -- Whatever the query, and whatever is bound before, if `buildFindingWhere` accepts the query, its
  -- clause with the values it has bound selects a finding exactly if the query asks for it.
  pub build_finding_where-asks :
      (q : FindingQuery) (args pushed : List Bind) (clauses : List (List Sql))
      → build_finding_where go q args ≡ where_clause pushed clauses
      → selects collation f pushed clauses ≡ asks go collation f q
  unfolding build_finding_where
  build_finding_where-asks q args pushed clauses e =
      selects-WhereMeans q args (build_groups go q.groups 0 args) pushed clauses e
        (build_groups-WhereMeans q.groups 0 args)
