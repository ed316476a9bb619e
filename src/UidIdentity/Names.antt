-- ===== src/UidIdentity/Names.antt =====
-- The two loops of name_bijection_uid_remap (uid_identity.py): what they collect.
use fritzbox_vpn.Base.{
  ◌≡◌, ◌⊎◌, inl, inr, true, Option, none, some, List, [], ◌∷◌, String, Dict, ◌==◌, lookup, put,
  lookup-put, elem, Bool-cases, Option-cases, eq_iff, eq_refl, arith,
}
use fritzbox_vpn.UidIdentity.{mapping, by_name, subset, pair_up}

module _ (name_of : String → Option String) (missing duplicate : String) where
  -- A collected name belongs to its uid.
  pub record Collected (uids : List String) (found result : Dict String) : Type 0 where
    pub sound :
        (name uid : String)
        → lookup name result ≡ some uid
        → (lookup name found ≡ some uid) ⊎ ((name_of uid ≡ some name) × (elem uid uids ≡ true))
    pub complete :
        (uid : String)
        → elem uid uids ≡ true
        → (name : String) × (name_of uid ≡ some name) × (lookup name result ≡ some uid)
    pub kept : (name uid : String) → lookup name found ≡ some uid → lookup name result ≡ some uid

  cons-Collected :
      (uid name : String) (uids : List String) (found result : Dict String)
      → name_of uid ≡ some name
      → lookup name found ≡ none
      → Collected uids (put name uid found) result
      → Collected (uid ∷ uids) found result
  unfolding elem
  cons-Collected uid name uids found result e free c = record {
    sound = λ n u h. elim (c.sound n u h) [
      | inl p ↦ elim (Bool-cases (name == n)) [
        | inl same ↦ inr (ground (arith, lookup-put name n uid found, eq_iff name n, eq_iff uid u))
        | inr other ↦ inl (ground (arith, lookup-put name n uid found))
      ]
      | inr (p, q) ↦ inr (p, ground arith)
    ];
    complete = λ u h. elim (Bool-cases (uid == u)) [
      | inl same ↦ (
        name,
        ground (arith, eq_iff uid u),
        ground (arith, c.kept name u, lookup-put name name uid found, eq_refl name, eq_iff uid u),
      )
      | inr other ↦ c.complete u (ground arith)
    ];
    kept = λ n u h. c.kept n u (ground (arith, lookup-put name n uid found, eq_iff name n));
  }

  pub by_name-Collected :
      (uids : List String) (found result : Dict String)
      → by_name name_of missing duplicate uids found ≡ mapping result
      → Collected uids found result
  unfolding by_name elem
  by_name-Collected [] found result h = record {
    sound = λ n u p. inl (ground arith);
    complete = λ u p. cc;
    kept = λ n u p. ground arith;
  }
  by_name-Collected (uid ∷ uids) found result h = elim (Option-cases (name_of uid)) [
    | inl e ↦ ground arith
    | inr (name, e) ↦ elim (Option-cases (lookup name found)) [
      | inr (u, e') ↦ ground arith
      | inl free ↦
          cons-Collected uid name uids found result e free
            (by_name-Collected uids (put name uid found) result (ground arith))
    ]
  ]

pub subset-elem :
    (s t : List String) (x : String) → subset s t ≡ true → elem x s ≡ true → elem x t ≡ true
unfolding subset elem
subset-elem [] t x h m = cc
subset-elem (y ∷ ys) t x h m = ground (arith, subset-elem ys t x, eq_iff y x)

-- The comprehension pairs the uids of one name, and each old uid has one name.
module _ (old new : Dict String) where
  pub record Pairs (names : List String) (m result : Dict String) : Type 0 where
    pub sound :
        (o n : String)
        → lookup o result ≡ some n
        → (lookup o m ≡ some n)
          ⊎ ((name : String) × (elem name names ≡ true)
              × (lookup name old ≡ some o)
              × (lookup name new ≡ some n))
    pub complete :
        (name o n : String)
        → elem name names ≡ true
        → lookup name old ≡ some o
        → lookup name new ≡ some n
        → lookup o result ≡ some n
    pub kept :
        (o n : String)
        → ((name : String) → lookup name old ≡ some o → lookup name new ≡ some n)
        → lookup o m ≡ some n
        → lookup o result ≡ some n

  skip-Pairs :
      (name : String) (names : List String) (m result : Dict String)
      → (lookup name old ≡ none) ⊎ (lookup name new ≡ none)
      → Pairs names m result
      → Pairs (name ∷ names) m result
  unfolding elem
  skip-Pairs name names m result gone r = record {
    sound = λ o n h. elim (r.sound o n h) [
      | inl p ↦ inl p
      | inr (x, e, p, q) ↦ inr (x, ground arith, p, q)
    ];
    complete = λ x o n h p q. elim (Bool-cases (name == x)) [
      | inl same ↦ ground (arith, eq_iff name x)
      | inr other ↦ r.complete x o n (ground arith) p q
    ];
    kept = r.kept;
  }

  module _
      (one_name : (a b o : String) → lookup a old ≡ some o → lookup b old ≡ some o → a ≡ b) where
    put-Pairs :
        (name : String) (names : List String) (m result : Dict String) (o' n' : String)
        → lookup name old ≡ some o'
        → lookup name new ≡ some n'
        → Pairs names (put o' n' m) result
        → Pairs (name ∷ names) m result
    unfolding elem
    put-Pairs name names m result o' n' po pn r = record {
      sound = λ o n h. elim (r.sound o n h) [
        | inl p ↦ elim (Bool-cases (o' == o)) [
          | inl same ↦ inr (
            name,
            ground (arith, eq_refl name),
            ground (arith, eq_iff o' o),
            ground (arith, eq_iff o' o, lookup-put o' o n' m),
          )
          | inr other ↦ inl (ground (arith, lookup-put o' o n' m))
        ]
        | inr (x, e, p, q) ↦ inr (x, ground arith, p, q)
      ];
      complete = λ x o n h p q. elim (Bool-cases (name == x)) [
        | inl same ↦
            r.kept o n (λ a pa. ground (arith, one_name a x o pa p, q))
              (ground (arith, eq_iff name x, lookup-put o' o n' m, eq_iff o' o))
        | inr other ↦ r.complete x o n (ground arith) p q
      ];
      kept = λ o n cond p.
          r.kept o n cond (ground (arith, lookup-put o' o n' m, eq_iff o' o, cond name));
    }

    pub pair_up-Pairs :
        (names : List String) (m : Dict String) → Pairs names m (pair_up names old new m)
    unfolding pair_up elem
    pair_up-Pairs [] m = record {
      sound = λ o n h. inl h;
      complete = λ name o n h p q. cc;
      kept = λ o n h p. p;
    }
    pair_up-Pairs (name ∷ names) m = elim (Option-cases (lookup name old)) [
      | inl e ↦ rw e (skip-Pairs name names m _ (inl e) (pair_up-Pairs names m))
      | inr (o, e) ↦ elim (Option-cases (lookup name new)) [
        | inl e' ↦ rw (e, e') (skip-Pairs name names m _ (inr e') (pair_up-Pairs names m))
        | inr (n, e') ↦
            rw (e, e') (put-Pairs name names m _ o n e e' (pair_up-Pairs names (put o n m)))
      ]
    ]
