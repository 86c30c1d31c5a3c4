-- ===== src/Query/Exec/Tree.antt =====
-- src/query/exec.rs, `eval_node`: the documents it finds are those that the query describes.
use ripindex.Common.{
  ℕ, ◌≡◌, refl, sym, ap, ◌∙◌, Bool, true, false, not, ◌&&◌, ◌||◌, Option, none, some, List, [], ◌∷◌,
  All,
}
use ripindex.Query.Syntax.{Node, Nodes, nil, cons}
use ripindex.Query.Source.{PostingSource, Segment, Bm25}
use ripindex.Query.Hits.{Hit, is_empty, difference, intersect}
use ripindex.Query.Hits.Lookup.{is_some, Rising, lookup, found}
use ripindex.Query.Hits.Merge.{union_lem, found-union, any_found}
use ripindex.Query.Hits.Difference.{difference_lem, unless}
use ripindex.Query.Hits.Intersect.{intersect_lem, in_all, all_found}
use ripindex.Query.Exec.{Lists, Stats, eval_node, eval_musts, exclude, eval_all}
use ripindex.Query.Exec.Terms.{names}
use ripindex.Query.Exec.Describes.{describes, Holds, matches-describes}
use ripindex.Query.Exec.Matches.{
  has_nodes, matches, all_match, any_match, Finds, eval_term-Finds, eval_phrase-Finds,
}

module _ (source : PostingSource) (bm25 : Bm25) (seg : Segment source) (lists : Lists source bm25)
    (stats : Stats source bm25) where
  open bm25 use {Score, plus}

  -- What the first loop of a conjunction tells of its clauses.
  abbrev Musts : Nodes → Option (List (List (Hit Score))) → Type 0
  Musts ns none = (d : ℕ) → all_match source bm25 seg lists stats d ns ≡ false
  Musts ns (some ls) =
      All (Rising 0) ls
      × ((d : ℕ) → all_found plus d ls ≡ all_match source bm25 seg lists stats d ns)
      × ((d : ℕ)
          → in_all plus d ls ≡ (
              has_nodes source bm25 seg lists stats ns
              && all_match source bm25 seg lists stats d ns))

  empty_fails :
      (hits : List (Hit Score)) (test : ℕ → Bool)
      → is_empty hits ≡ true
      → Finds source bm25 seg lists stats hits test
      → (d : ℕ) → test d ≡ false
  empty_fails [] test h f d = sym (f.exact d)
  empty_fails (x ∷ xs) test h f d = cc

  difference-Finds :
      (base excluded : List (Hit Score)) (p q : ℕ → Bool)
      → Finds source bm25 seg lists stats base p
      → Finds source bm25 seg lists stats excluded q
      → Finds source bm25 seg lists stats (difference base excluded) (λ d. p d && not (q d))
  difference-Finds base excluded p q f g = record {
    rising = (difference_lem 0 0 base excluded f.rising g.rising).0;
    exact = λ d.
        ap is_some (difference_lem 0 d base excluded f.rising g.rising).1
        ∙ go (lookup d base) (lookup d excluded)
        ∙ ap (λ b. b && not (found d excluded)) (f.exact d)
        ∙ ap (λ b. p d && not b) (g.exact d);
  }
    where
      go : (x y : Option Score) → is_some (unless x y) ≡ (is_some x && not (is_some y))
      go none y = refl
      go (some x) none = refl
      go (some x) (some y) = refl

  Musts-cons :
      (n : Node) (ns : Nodes) (hits : List (Hit Score)) (o : Option (List (List (Hit Score))))
      → Finds source bm25 seg lists stats hits (λ d. matches source bm25 seg lists stats d n)
      → Musts ns o
      → Musts (cons n ns) (elim (is_empty hits) [
        | true ↦ none
        | false ↦ elim o [ none ↦ none | some ls ↦ some (hits ∷ ls) ]
      ])
  unfolding matches
  Musts-cons n ns [] o f m = λ d. rw (← f.exact d) refl
  Musts-cons n ns (x ∷ xs) none f m = λ d. rw (m d) (stop (matches source bm25 seg lists stats d n))
    where
      stop : (b : Bool) → (b && false) ≡ false
      stop true = refl
      stop false = refl
  Musts-cons n ns (x ∷ xs) (some ls) f m = ((f.rising, m.0), (λ d. both d), λ d. both d)
    where
      both :
          (d : ℕ)
          → (found d (x ∷ xs) && all_found plus d ls) ≡ (
              matches source bm25 seg lists stats d n && all_match source bm25 seg lists stats d ns)
      both d =
          ap (λ b. b && all_found plus d ls) (f.exact d)
          ∙ ap (λ b. matches source bm25 seg lists stats d n && b) (m.1 d)

  conjunction :
      (o : Option (List (List (Hit Score)))) (must must_not : Nodes)
      → Musts must o
      → ((result : List (Hit Score)) (p : ℕ → Bool)
          → Finds source bm25 seg lists stats result p
          → Finds source bm25 seg lists stats
              (exclude source bm25 seg lists stats result must_not)
              (λ d. p d && not (any_match source bm25 seg lists stats d must_not)))
      → Finds source bm25 seg lists stats
          (elim o [
            | none ↦ []
            | some acc ↦ exclude source bm25 seg lists stats (intersect plus acc) must_not
          ])
          (λ d.
            (has_nodes source bm25 seg lists stats must
              && all_match source bm25 seg lists stats d must)
            && not (any_match source bm25 seg lists stats d must_not))
  conjunction none must must_not m k = record {
    rising = tt;
    exact = λ d. rw (m d) (
        stop (not (any_match source bm25 seg lists stats d must_not))
          (has_nodes source bm25 seg lists stats must));
  }
    where
      stop : (c b : Bool) → false ≡ ((b && false) && c)
      stop c true = refl
      stop c false = refl
  conjunction (some acc) must must_not m k =
      k (intersect plus acc)
        (λ d.
          has_nodes source bm25 seg lists stats must
          && all_match source bm25 seg lists stats d must)
        (record {
          rising = (intersect_lem plus 0 0 acc m.0).0;
          exact = λ d. (intersect_lem plus 0 d acc m.0).2 ∙ m.2 d;
        })

  regroup : (a b c : Bool) → ((a && not b) && not c) ≡ (a && not (b || c))
  regroup false b c = refl
  regroup true true c = refl
  regroup true false c = refl

  none_left : (b : Bool) → b ≡ (b && not false)
  none_left true = refl
  none_left false = refl

  mutual
    unfolding eval_node matches

    eval_node-Finds :
        (n : Node)
        → Finds source bm25 seg lists stats
            (eval_node source bm25 seg lists stats n)
            (λ d. matches source bm25 seg lists stats d n)
    eval_node-Finds (Node.term t) = eval_term-Finds source bm25 seg lists stats t
    eval_node-Finds (Node.phrase ts) = eval_phrase-Finds source bm25 seg lists stats ts
    eval_node-Finds (Node.and must must_not) =
        conjunction (eval_musts source bm25 seg lists stats must) must must_not
          (eval_musts-Musts must) (λ result p f. exclude-Finds must_not result p f)
    eval_node-Finds (Node.or ns) =
        let (rise, exact) = eval_all-lem ns in
        record {
          rising = (union_lem plus 0 0 _ rise).0;
          exact = λ d. found-union plus 0 d _ rise ∙ exact d;
        }

    eval_musts-Musts : (ns : Nodes) → Musts ns (eval_musts source bm25 seg lists stats ns)
    eval_musts-Musts nil = (tt, (λ d. refl), λ d. refl)
    eval_musts-Musts (cons n ns) =
        Musts-cons n ns (eval_node source bm25 seg lists stats n)
          (eval_musts source bm25 seg lists stats ns) (eval_node-Finds n) (eval_musts-Musts ns)

    exclude-Finds :
        (ns : Nodes) (result : List (Hit Score)) (p : ℕ → Bool)
        → Finds source bm25 seg lists stats result p
        → Finds source bm25 seg lists stats
            (exclude source bm25 seg lists stats result ns)
            (λ d. p d && not (any_match source bm25 seg lists stats d ns))
    exclude-Finds nil result p f = record {
      rising = f.rising;
      exact = λ d. f.exact d ∙ none_left (p d);
    }
    exclude-Finds (cons n ns) [] p f = record { rising = tt; exact = λ d. rw (← f.exact d) refl }
    exclude-Finds (cons n ns) (x ∷ xs) p f =
        let g =
          difference-Finds (x ∷ xs) (eval_node source bm25 seg lists stats n) p
            (λ d. matches source bm25 seg lists stats d n) f (eval_node-Finds n) in
        let h =
          exclude-Finds ns (difference (x ∷ xs) (eval_node source bm25 seg lists stats n))
            (λ d. p d && not (matches source bm25 seg lists stats d n)) g in
        record {
          rising = h.rising;
          exact = λ d.
              h.exact d
              ∙ regroup (p d) (matches source bm25 seg lists stats d n)
                  (any_match source bm25 seg lists stats d ns);
        }

    eval_all-lem :
        (ns : Nodes)
        → All (Rising 0) (eval_all source bm25 seg lists stats ns)
          × ((d : ℕ)
              → any_found plus d (eval_all source bm25 seg lists stats ns)
                ≡ any_match source bm25 seg lists stats d ns)
    eval_all-lem nil = (tt, λ d. refl)
    eval_all-lem (cons n ns) =
        let f = eval_node-Finds n in
        let (rise, exact) = eval_all-lem ns in
        (
          (f.rising, rise),
          λ d.
              ap (λ b. b || any_found plus d (eval_all source bm25 seg lists stats ns)) (f.exact d)
              ∙ ap (λ b. matches source bm25 seg lists stats d n || b) (exact d),
        )

  pub eval_node-matches :
      (d : ℕ) (n : Node)
      → Rising 0 (eval_node source bm25 seg lists stats n)
        × (found d (eval_node source bm25 seg lists stats n)
            ≡ matches source bm25 seg lists stats d n)
  eval_node-matches d n = let f = eval_node-Finds n in (f.rising, f.exact d)

  -- In one segment, with the segment's own list for every term that the query names, positively or
  -- not, the evaluation of any query tree gives hits in the order of their documents, each document
  -- once, and these are exactly the documents that the query describes by the segment's postings:
  -- the live ones with the term, with the terms of the phrase at positions one after the other, with
  -- all clauses of a conjunction that has one and no negated clause, or with one of the
  -- alternatives.
  pub eval_node_lem :
      (d : ℕ) (n : Node)
      → Holds source bm25 seg lists stats (λ t. names t n)
      → Rising 0 (eval_node source bm25 seg lists stats n)
        × (found d (eval_node source bm25 seg lists stats n) ≡ describes source seg d n)
  eval_node_lem d n h =
      let (rise, exact) = eval_node-matches d n in
      (rise, exact ∙ matches-describes source bm25 seg lists stats d n h)
