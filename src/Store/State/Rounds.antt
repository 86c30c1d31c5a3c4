-- ===== src/Store/State/Rounds.antt =====
-- src/store/state.rs, `reconcile`, where no crawled file stands at the path that a rename left: the
-- loop keeps count of what it touches.
use ripindex.Common.{
  arith, ℕ, ◌≤◌, ◌≡◌, ◌≢◌, refl, sym, ◌∙◌, true, false, ◌||◌, Option, List, [], ◌∷◌, Bool-cases,
  inl, inr, Has, here, there,
}
use mathlib.Core.Path.{subst}
use ripindex.Format.{Bytes}
use ripindex.Crawl.{PathBuf, CrawledFile, relative_path}
use ripindex.Query.Syntax.{Text, text_eq, text_eq_sound, text_eq_refl}
use ripindex.Store.State.{StateIndex, Progress, start, get, has, examine}
use ripindex.Store.State.Reconcile.{one_file, crawl_rounds}
use ripindex.Store.State.Effect.{Effect, quiet, own, away, at_path-Effect}
use ripindex.Store.State.Step.{Distinct, AllGone, Inv, Step, calm, hit, Step-Counted}
use ripindex.Store.State.Marked.{ids_at, left_false, both_false, right_true, marked}

module _ (read : PathBuf → Option Bytes) (hash_bytes : Bytes → ℕ) (prev : StateIndex)
    (root : PathBuf) (crawled : List CrawledFile) where
  module _ (unique : (x : ℕ) → ids_at x prev.by_path ≤ 1)
      (gone : AllGone read hash_bytes prev root crawled) where
    module _ (cf : CrawledFile) (files : List CrawledFile) (p q : Progress) (i : Has cf crawled)
        (d : Distinct read hash_bytes prev root crawled (cf ∷ files))
        (v : Inv read hash_bytes prev root crawled unique gone (cf ∷ files) p) where
      abbrev rel : Text
      rel = relative_path root cf.entry.path

      module _ (qs : q.seen ≡ rel ∷ p.seen) where
        seen_after :
            (path : Text)
            → has q.seen path ≡ true
            → (c : CrawledFile) × Has c crawled × (relative_path root c.entry.path ≡ path)
        unfolding has
        seen_after path h =
            let k : (text_eq rel path || has p.seen path) ≡ true =
              subst (λ s. has s path ≡ true) qs h in
            elim (Bool-cases (text_eq rel path)) [
              | inl o ↦ (cf, i, text_eq_sound rel path o)
              | inr o ↦ v.seen_crawled path (subst (λ b. (b || has p.seen path) ≡ true) o k)
            ]

        unseen_after :
            (c : CrawledFile) → Has c files → has q.seen (relative_path root c.entry.path) ≡ false
        unfolding has
        unseen_after c k = rw qs (rw (d.0 c k) (v.unseen c (there k)))

        module _ (qc : q.consumed_old ≡ p.consumed_old) where
          away_after :
              (path : Text)
              → has q.consumed_old path ≡ true
              → (c : CrawledFile) → Has c crawled
              → relative_path root c.entry.path ≢ path
          away_after path h = v.away_from path (subst (λ s. has s path ≡ true) qc h)

          mono_own : (path : Text) → marked q path ≡ false → marked p path ≡ false
          unfolding has
          mono_own path h =
              left_false (text_eq rel path) (has p.seen path) (has p.consumed_old path) (
                subst (λ s. (has s path || has p.consumed_old path) ≡ false) qs
                  (subst (λ s. (has q.seen path || has s path) ≡ false) qc h))

      pub unmarked_own : marked p rel ≡ false
      unmarked_own = rw (v.unseen cf here) (elim (Bool-cases (has p.consumed_old rel)) [
        | inl h ↦ absurd (v.away_from rel h cf i refl)
        | inr h ↦ h
      ])

      marked_own : q.seen ≡ rel ∷ p.seen → marked q rel ≡ true
      unfolding has
      marked_own qs = rw qs (rw (text_eq_refl rel) refl)

      Effect-Step :
          Effect read hash_bytes prev cf.entry.inode rel p q
          → Step read hash_bytes prev root crawled unique gone p q
      unfolding has
      Effect-Step (quiet t m) = calm t (mono_own m.0 m.1)
      Effect-Step (own st e t m) = hit rel st e t unmarked_own (marked_own m.0) (mono_own m.0 m.1)
      Effect-Step (away old st absent looked_up n e t qs qc) = hit old st e t unmarked mark mono
        where
          unmarked : marked p old ≡ false
          unmarked = elim (Bool-cases (has p.seen old)) [
            | inl h ↦
                let (c, k, r) = v.seen_crawled old h in
                absurd (gone cf old i absent looked_up c k r)
            | inr h ↦ rw h n
          ]

          mark : marked q old ≡ true
          mark = rw qc (rw (text_eq_refl old) (right_true (has q.seen old)))

          mono : (path : Text) → marked q path ≡ false → marked p path ≡ false
          mono path h =
              both_false (text_eq rel path) (has p.seen path) (text_eq old path)
                (has p.consumed_old path)
                (subst (λ s. (has s path || (text_eq old path || has p.consumed_old path)) ≡ false)
                  qs (subst (λ s. (has q.seen path || has s path) ≡ false) qc h))

      own_away :
          q.seen ≡ rel ∷ p.seen
          → q.consumed_old ≡ p.consumed_old
          → Step read hash_bytes prev root crawled unique gone p q
          → Inv read hash_bytes prev root crawled unique gone files q
      own_away qs qc s = record {
        seen_crawled = seen_after qs;
        unseen = unseen_after qs;
        away_from = away_after qs qc;
        counted = Step-Counted read hash_bytes prev root crawled unique gone p q v.counted s;
      }

      Effect-Inv :
          Effect read hash_bytes prev cf.entry.inode rel p q
          → Step read hash_bytes prev root crawled unique gone p q
          → Inv read hash_bytes prev root crawled unique gone files q
      unfolding has
      Effect-Inv (quiet t m) s = own_away m.0 m.1 s
      Effect-Inv (own st e t m) s = own_away m.0 m.1 s
      Effect-Inv (away old st absent looked_up n e t qs qc) s = record {
        seen_crawled = seen_after qs;
        unseen = unseen_after qs;
        away_from = λ path h c k.
            let w : (text_eq old path || has p.consumed_old path) ≡ true =
              subst (λ s. has s path ≡ true) qc h in
            elim (Bool-cases (text_eq old path)) [
              | inl o ↦ λ r. gone cf old i absent looked_up c k (r ∙ sym (text_eq_sound old path o))
              | inr o ↦
                  v.away_from path (subst (λ b. (b || has p.consumed_old path) ≡ true) o w) c k
            ];
        counted = Step-Counted read hash_bytes prev root crawled unique gone p q v.counted s;
      }

    pub one_file-Step :
        (cf : CrawledFile) (files : List CrawledFile) (p : Progress)
        → Has cf crawled
        → Distinct read hash_bytes prev root crawled (cf ∷ files)
        → Inv read hash_bytes prev root crawled unique gone (cf ∷ files) p
        → Step read hash_bytes prev root crawled unique gone p
            (one_file read hash_bytes prev root cf p)
          × Inv read hash_bytes prev root crawled unique gone files
              (one_file read hash_bytes prev root cf p)
    unfolding one_file examine
    one_file-Step cf files p i d v =
        let path = relative_path root cf.entry.path in
        let w : Inv read hash_bytes prev root crawled unique gone (cf ∷ files) (examine p) =
          record {
            seen_crawled = v.seen_crawled;
            unseen = v.unseen;
            away_from = v.away_from;
            counted = v.counted;
          } in
        let q = one_file read hash_bytes prev root cf p in
        let e = at_path-Effect read hash_bytes prev path cf (get prev path) (examine p) refl in
        let s = Effect-Step cf files (examine p) q i d w e in
        (examined s, Effect-Inv cf files (examine p) q i d w e s)
      where
        examined :
            {q : Progress}
            → Step read hash_bytes prev root crawled unique gone (examine p) q
            → Step read hash_bytes prev root crawled unique gone p q
        examined (calm t mono) = calm t mono
        examined (hit key prior e t unmarked mark mono) = hit key prior e t unmarked mark mono

    pub crawl_rounds-Inv :
        (files : List CrawledFile) (p : Progress)
        → ((cf : CrawledFile) → Has cf files → Has cf crawled)
        → Distinct read hash_bytes prev root crawled files
        → Inv read hash_bytes prev root crawled unique gone files p
        → Inv read hash_bytes prev root crawled unique gone []
            (crawl_rounds read hash_bytes prev root files p)
    unfolding crawl_rounds
    crawl_rounds-Inv [] p i d v = v
    crawl_rounds-Inv (cf ∷ files) p i d v =
        crawl_rounds-Inv files (one_file read hash_bytes prev root cf p) (λ c k. i c (there k)) d.1
          (one_file-Step cf files p (i cf here) d v).1

    pub start-Inv : Inv read hash_bytes prev root crawled unique gone crawled start
    unfolding has
    start-Inv = record {
      seen_crawled = λ path h. absurd cc;
      unseen = λ cf h. refl;
      away_from = λ path h cf k. absurd cc;
      counted = λ path st f. (omega arith, λ h. refl);
    }
