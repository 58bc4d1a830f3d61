-- ===== src/Checkpoint/Store/Pages.antt =====
-- Following the cursors of `list` from the first page to the last.
use congeries_core.Prelude.{
  ℕ, zero, suc, ◌≤◌, ◌<◌, String, ◌≡◌, refl, sym, ap, subst, ◌∙◌, true, false, Option, none, some,
  List, [], ◌∷◌, ◌++◌, take, drop, get_last?, length, take-drop, length-take-le, All, ltb, arith,
  Bool-cases, inl, inr, ltb→lt,
}
use congeries_core.Prelude.Eq.{string_eq, nat_eq, pair_eq, option_eq, ==_iff, ==_refl}
use congeries_core.Runtime.Errors.{Result, ok, ◌>>=◌}
use congeries_core.Runtime.Scope.{ScopeRef, key, require_narrower_than}
use congeries_core.Checkpoint.Model.{Checkpoint}
use congeries_core.Checkpoint.Store.{InMemoryCheckpointStore}
use congeries_core.Checkpoint.Store.Listing.{
  CheckpointQuery, CheckpointCursor, CheckpointPage, is_listed, listed, sort_latest, page_of,
  next_of, validate_cursor, list_page, query_fingerprint,
}
use congeries_core.Checkpoint.Store.Consistency.{IsConsistent}
use congeries_core.Checkpoint.Store.Cuts.{
  last_of_all, below-below, below_bound, below-Descending, last_there, length-drop_lt, after_limit,
  take_whole,
}
use congeries_core.Checkpoint.Store.Latest.{Descending, below, sort_latest-below, latest-Descending}

module _ (fingerprint : String → String → ScopeRef → Option String → ℕ → String) where
  -- A caller that asks for the next page as long as there is a cursor. `rounds` bounds the pages.
  abbrev pub go_on :
      CheckpointQuery
      → (CheckpointQuery → Result (List (List Checkpoint)))
      → CheckpointPage
      → Option CheckpointCursor
      → Result (List (List Checkpoint))
  go_on q walk page none = ok (page.items ∷ [])
  go_on q walk page (some cursor) =
      walk (record q { cursor = some cursor }) >>= λ pages. ok (page.items ∷ pages)

  unfoldable pub all_pages :
      ℕ → InMemoryCheckpointStore → ScopeRef → CheckpointQuery → Result (List (List Checkpoint))
  all_pages zero s scope q = ok []
  all_pages (suc rounds) s scope q = list_page fingerprint s q scope >>= λ page.
      go_on q (all_pages rounds s scope) page page.next_cursor

  abbrev pub concat : List (List Checkpoint) → List Checkpoint
  concat [] = []
  concat (page ∷ rest) = page ++ concat rest

  -- What a query without a cursor would list, all at once.
  abbrev pub whole : InMemoryCheckpointStore → CheckpointQuery → List Checkpoint
  whole s q = sort_latest (listed (is_listed q none) s.checkpoints)

  -- What following the cursors gives.
  pub record Walked (limit : ℕ) (rest : List Checkpoint) (answer : Result (List (List Checkpoint)))
      : Type 0 where
    pub pages : List (List Checkpoint)
    pub answered : answer ≡ ok pages
    pub together : concat pages ≡ rest
    pub bounded : All (λ (page : List Checkpoint). length page ≤ limit) pages

module _ (fingerprint : String → String → ScopeRef → Option String → ℕ → String)
    (s : InMemoryCheckpointStore) (q : CheckpointQuery) (scope : ScopeRef)
    (provider : q.provider_id ≡ s.provider_id)
    (narrower : require_narrower_than q.scope scope ≡ ok tt) where
  -- What is left to list from a cursor on.
  abbrev left : Option CheckpointCursor → List Checkpoint
  left cursor = sort_latest (listed (is_listed q (next_of cursor)) s.checkpoints)

  abbrev cursor_at : Checkpoint → CheckpointCursor
  cursor_at c = record {
    provider_id = s.provider_id;
    run_id = q.run_id;
    scope = q.scope;
    graph_version = q.graph_version;
    limit = q.limit;
    query_fingerprint = query_fingerprint fingerprint q;
    next_sequence = c.sequence;
  }

  -- A cursor that `list` gave is accepted for the query that it was given for.
  own_cursor : (c : Checkpoint) → validate_cursor fingerprint s q (some (cursor_at c)) ≡ ok tt
  unfolding validate_cursor
  own_cursor c = ground (
    arith,
    ==_refl s.provider_id,
    ==_refl q.run_id,
    ==_refl (key q.scope),
    ==_refl q.graph_version,
    ==_refl (query_fingerprint fingerprint q),
  )

  -- The check does not read the cursor that the query carries.
  validate_cursor_apart :
      (carried cursor : Option CheckpointCursor)
      → validate_cursor fingerprint s (record q { cursor = carried }) cursor
        ≡ validate_cursor fingerprint s q cursor
  unfolding validate_cursor
  validate_cursor_apart carried none = refl
  validate_cursor_apart carried (some cursor) = refl

  list_page_lem :
      (cursor : Option CheckpointCursor)
      → validate_cursor fingerprint s q cursor ≡ ok tt
      → list_page fingerprint s (record q { cursor = cursor }) scope
        ≡ ok (page_of fingerprint s q (left cursor))
  unfolding list_page
  list_page_lem cursor valid =
      rw
        (
          (==_iff q.provider_id s.provider_id).1 provider,
          narrower,
          validate_cursor_apart cursor cursor ∙ valid,
        )
        refl

  left-next :
      (cursor : Option CheckpointCursor) (c : Checkpoint)
      → get_last? (take q.limit (left cursor)) ≡ some c
      → left (some (cursor_at c)) ≡ below c.sequence (left cursor)
  left-next none c h = sort_latest-below q c.sequence s.checkpoints
  left-next (some cursor) c h =
      let n = cursor.next_sequence in
      let e = sort_latest-below q n s.checkpoints in
      let small =
        last_of_all (λ (x : Checkpoint). x.sequence < n) q.limit (left (some cursor)) c
          (subst (All (λ (x : Checkpoint). x.sequence < n)) (sym e)
            (below_bound n (whole fingerprint s q)))
          h in
      sort_latest-below q c.sequence s.checkpoints
      ∙ sym (below-below c.sequence n (whole fingerprint s q) (omega (arith, small)))
      ∙ ap (below c.sequence) (sym e)

  last_page :
      (rounds : ℕ) (cursor : Option CheckpointCursor)
      → validate_cursor fingerprint s q cursor ≡ ok tt
      → ltb q.limit (length (left cursor)) ≡ false
      → all_pages fingerprint (suc rounds) s scope (record q { cursor = cursor })
        ≡ ok (take q.limit (left cursor) ∷ [])
  unfolding all_pages
  last_page rounds cursor valid short = rw (list_page_lem cursor valid, short) refl

  further_page :
      (rounds : ℕ) (cursor : Option CheckpointCursor) (c : Checkpoint)
      (pages : List (List Checkpoint))
      → validate_cursor fingerprint s q cursor ≡ ok tt
      → ltb q.limit (length (left cursor)) ≡ true
      → get_last? (take q.limit (left cursor)) ≡ some c
      → all_pages fingerprint rounds s scope (record q { cursor = some (cursor_at c) }) ≡ ok pages
      → all_pages fingerprint (suc rounds) s scope (record q { cursor = cursor })
        ≡ ok (take q.limit (left cursor) ∷ pages)
  unfolding all_pages
  further_page rounds cursor c pages valid long last later =
      rw (list_page_lem cursor valid, long, last, later) refl

  all_pages-from :
      (rounds : ℕ) (cursor : Option CheckpointCursor)
      → 1 ≤ q.limit
      → validate_cursor fingerprint s q cursor ≡ ok tt
      → Descending (left cursor)
      → length (left cursor) < rounds
      → Walked fingerprint q.limit
          (left cursor)
          (all_pages fingerprint rounds s scope (record q { cursor = cursor }))
  all_pages-from zero cursor pos valid d enough = absurd (omega (arith, enough))
  all_pages-from (suc rounds) cursor pos valid d enough =
      let page = take q.limit (left cursor) in
      let small = length-take-le q.limit (left cursor) in
      elim (Bool-cases (ltb q.limit (length (left cursor)))) [
        | inl long ↦
            let (c, last) = last_there q.limit (left cursor) pos (ltb→lt _ _ long) in
            let rest : left (some (cursor_at c)) ≡ drop q.limit (left cursor) =
              left-next cursor c last ∙ after_limit q.limit (left cursor) c pos d last in
            let w =
              all_pages-from rounds (some (cursor_at c)) pos (own_cursor c)
                (subst Descending (sym (left-next cursor c last))
                  (below-Descending c.sequence (left cursor) d))
                (omega (
                  arith,
                  enough,
                  ap length rest,
                  length-drop_lt q.limit (left cursor) pos (ltb→lt _ _ long),
                )) in
            record {
              pages = page ∷ w.pages;
              answered = further_page rounds cursor c w.pages valid long last w.answered;
              together = ap (λ l. page ++ l) (w.together ∙ rest) ∙ take-drop q.limit (left cursor);
              bounded = (small, w.bounded);
            }
        | inr short ↦ record {
          pages = page ∷ [];
          answered = last_page rounds cursor valid short;
          together = take_whole q.limit (left cursor) (ground (arith, short));
          bounded = (small, tt);
        }
      ]

  -- On a consistent store and for a query with a positive limit, its own provider and a scope that
  -- the caller may use: who follows the cursors from the first page on gets, after at most one page
  -- more than there are checkpoints to list, pages of at most `limit` checkpoints each that together
  -- are all checkpoints of the query, the latest first, none twice and none left out.
  pub all_pages-Walked :
      (canonical_digest : Checkpoint → String)
      → IsConsistent canonical_digest s
      → 1 ≤ q.limit
      → Walked fingerprint q.limit (whole fingerprint s q) (
          all_pages fingerprint
            (suc (length (whole fingerprint s q)))
            s
            scope
            (record q { cursor = none }))
        × Descending (whole fingerprint s q)
  unfolding validate_cursor
  all_pages-Walked canonical_digest k pos =
      let d = latest-Descending canonical_digest s q k in
      (all_pages-from (suc (length (whole fingerprint s q))) none pos refl d (omega arith), d)
