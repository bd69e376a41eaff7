-- ===== src/Sharedata/Fresh.antt =====
-- When the cache of lualib/starnet/sharedata.lua gives what the store holds, and when it does not.
use Prim.Native.String.{String}
use text.Mathlib.Text.{◌==◌ as str_eq}
use text.Mathlib.TextEquality.{eq_iff}
use starnet.Common.{
  ℕ, suc, ◌+◌, ◌%◌, ◌^◌, ◌<◌, ◌≡◌, ap, subst, refl, sym, ◌∙◌, true, false, Option, none, some, List,
  [], ◌∷◌, ◌==◌, ==_iff, if◌then◌else◌, arith, Bool-cases, Option-cases, ◌≤◌, inl, inr,
}
use starnet.Sharedata.{
  TableState, Store, StoreOp, update_op, delete_op, set_name, query, update, delete, version_of,
  requery, cached_query, run_ops,
}

module _ {A : Type 0} (name : String) where
  version_of-some :
      (store : Store A) (now : TableState A)
      → store name ≡ some now
      → version_of store name ≡ now.version
  unfolding version_of
  version_of-some store now e = rw (version_of, e) refl

  -- A run without a delete of this name, and its updates of this name.
  abbrev pub Keeps : List (StoreOp A) → Type 0
  Keeps [] = Unit
  Keeps (update_op n t ∷ ops) = Keeps ops
  Keeps (delete_op n ∷ ops) = (str_eq name n ≡ false) × Keeps ops

  abbrev pub updates : List (StoreOp A) → ℕ
  updates [] = 0
  updates (update_op n t ∷ ops) = let rest = updates ops in if str_eq name n then suc rest else rest
  updates (delete_op n ∷ ops) = updates ops

  -- The store holds the k-th successor of a state.
  Succeeds : TableState A → ℕ → Option (TableState A) → Type 0
  Succeeds st k none = ⊥
  Succeeds st k (some now) = (now.version ≡ (st.version + k) % 2 ^ 32) × (k ≡ 0 → now ≡ st)

  Succeeds-cong :
      (st : TableState A) (j k : ℕ) (o : Option (TableState A))
      → j ≡ k
      → Succeeds st j o
      → Succeeds st k o
  Succeeds-cong st j k o e h = subst (λ i. Succeeds st i o) e h

  one_more :
      (st : TableState A) (j : ℕ) (o : Option (TableState A)) (t : A)
      → Succeeds st j o
      → Succeeds st (suc j) (
          some (record {
            name = name;
            table = t;
            version = elim o [ none ↦ 0 | some now ↦ (now.version + 1) % 2 ^ 32 ];
            dirty = true;
          }))
  unfolding Succeeds
  one_more st j none t h = elim h [ ]
  one_more st j (some now) t h =
      (omega (arith, h.0), (λ z. let bad : 1 ≤ 0 = omega (arith, z) in elim bad [ ]))

  update-Succeeds :
      (st : TableState A) (j : ℕ) (store : Store A) (n : String) (t : A)
      → str_eq name n ≡ true
      → Succeeds st j (store name)
      → Succeeds st (suc j) (update store n t name)
  unfolding update set_name
  update-Succeeds st j store n t e h =
      let p = sym ((eq_iff name n).0 e) in
      rw (p, (eq_iff name name).1 refl) (one_more st j (store name) t h)

  run_ops-Succeeds :
      (ops : List (StoreOp A)) (st : TableState A) (j : ℕ) (store : Store A)
      → Keeps ops
      → Succeeds st j (store name)
      → Succeeds st (j + updates ops) (run_ops store ops name)
  unfolding run_ops update delete set_name
  run_ops-Succeeds [] st j store keeps now =
      Succeeds-cong st j (j + 0) (store name) (omega arith) now
  run_ops-Succeeds (update_op n t ∷ ops) st j store keeps now = elim (Bool-cases (str_eq name n)) [
    | inl e ↦ rw e (
        Succeeds-cong st (suc j + updates ops) (j + suc (updates ops)) _ (omega arith) (
          run_ops-Succeeds ops st (suc j) (update store n t) keeps
            (update-Succeeds st j store n t e now)))
    | inr e ↦ rw e (run_ops-Succeeds ops st j (update store n t) keeps (rw e now))
  ]
  run_ops-Succeeds (delete_op n ∷ ops) st j store keeps now =
      run_ops-Succeeds ops st j (delete store n) keeps.1 (rw keeps.0 now)

  answer-some :
      (b now : TableState A) (k : ℕ) (cache store : Store A)
      → cache name ≡ some b
      → store name ≡ some now
      → b.version < 2 ^ 32
      → k < 2 ^ 32
      → Succeeds b k (some now)
      → (cached_query cache store name).0 ≡ some now
  unfolding cached_query requery query Succeeds
  answer-some b now k cache store cached held small few h =
      let v = version_of-some store now held in
      elim (Bool-cases (b.version == now.version)) [
        | inl e ↦
            let same = (==_iff b.version now.version).0 e in
            rw (cached_query, cached, v, held, e)
              (ap some (sym (h.1 (omega (arith, same, h.0, small, few)))))
        | inr e ↦ rw (cached_query, cached, v, held, e) refl
      ]

  answer :
      (b : TableState A) (k : ℕ) (cache store : Store A)
      → cache name ≡ some b
      → b.version < 2 ^ 32
      → k < 2 ^ 32
      → Succeeds b k (store name)
      → (cached_query cache store name).0 ≡ store name
  unfolding Succeeds
  answer b k cache store cached small few h = elim (Option-cases (store name)) [
    | inl e ↦ let bad = rw e at h in elim bad [ ]
    | inr (now, e) ↦
        let h' = rw e at h in answer-some b now k cache store cached e small few h' ∙ sym e
  ]

  -- If a client has cached what the store holds, then after any run of updates and deletes of any
  -- names by any services, without a delete of this name and with less than 2^32 updates of it,
  -- sharedata.query gives it what the store holds.
  pub cached_query-fresh :
      (ops : List (StoreOp A)) (b : TableState A) (cache store : Store A)
      → cache name ≡ some b
      → store name ≡ some b
      → b.version < 2 ^ 32
      → Keeps ops
      → updates ops < 2 ^ 32
      → let later = run_ops store ops in (cached_query cache later name).0 ≡ query later name
  unfolding query Succeeds
  cached_query-fresh ops b cache store cached held small keeps few =
      answer b (updates ops) cache (run_ops store ops) cached small few (
        Succeeds-cong b (0 + updates ops) (updates ops) (run_ops store ops name) (omega arith)
          (run_ops-Succeeds ops b 0 store keeps (rw held (omega (arith, small), (λ z. refl)))))

module _ {A : Type 0} (name : String) where
  -- If a client has cached the first table of a name, then after a delete of the name by another
  -- service and an update with any new table, sharedata.query still gives it the old table, while
  -- the store holds the new one: the versions of both are 0.
  pub cached_query-stale :
      (b : TableState A) (cache store : Store A) (new : A)
      → cache name ≡ some b
      → b.version ≡ 0
      → let later = update (delete store name) name new in
        ((cached_query cache later name).0 ≡ some b)
        × (query later name ≡ some (record { name = name; table = new; version = 0; dirty = true }))
  unfolding cached_query query update delete set_name
  cached_query-stale b cache store new cached first =
      let own = (eq_iff name name).1 refl in
      let fresh : TableState A = record { name = name; table = new; version = 0; dirty = true } in
      let later = update (delete store name) name new in
      let held : later name ≡ some fresh = rw own refl in
      let test : (b.version == version_of later name) ≡ true =
        (==_iff b.version (version_of later name)).1
          (first ∙ sym (version_of-some name later fresh held)) in
      (rw (cached_query, cached, test) refl, held)
