-- ===== src/Http/Entries/Pages.antt =====
-- Following `next_cursor` from page to page.
use peikonpurekkusu_account.Prelude.{
  ℕ, some, [], ◌∷◌, List, ◌≤◌, ◌≡◌, suc, Bool, ◌<◌, ◌==◌, String, ap, zero, ◌++◌, false, ◌*◌, ◌∙◌,
  true, refl, arith, sym, inl, inr, if◌then◌else◌, not,
}
use peikonpurekkusu_account.Http.{
  Response, EntryView, Body, Request, caller_id, broken_after, Fetch, write_json, whole, fetch,
  http_error,
}
use peikonpurekkusu_account.Http.Entries.{
  next_cursor, read_cursor, page_size, last_id, or_default, newest_first, is_owned, list_entries,
  entries_reply, page_of, entries_for, entries_before,
}
use peikonpurekkusu_account.Schema.{Runtime, Uuid, Store}
use peikonpurekkusu_account.Prelude.Lists.{length, take}
use peikonpurekkusu_account.Http.Entries.Order.{
  before, Descending, drop, before_before, length-take, last_id-take, newest_first_sorted,
  before_page, length-drop, last_id_full, Descending-drop, NewestFirst, entries_of, take-drop,
  take_cases, Descending-entries_of, length-take_bound, entries_before_filter, before_all,
}
use peikonpurekkusu_account.Prelude.Decimal.{
  print_nat, print_nat_head, parse_int64, parse_int64-print_nat,
}
use peikonpurekkusu_account.Prelude.Word.{max_int64}
use peikonpurekkusu_account.Prelude.Int.{pos}

-- A client that asks for the next page while it is given a cursor.
abbrev pub following : (List ℕ → List EntryView) → Body → List EntryView
following more (Body.entries page []) = page
following more (Body.entries page (c ∷ cs)) = page ++ more (c ∷ cs)
following more (Body.accounts views at) = []
following more (Body.balance v) = []
following more (Body.checks cs) = []
following more (Body.problem status detail) = []

unfoldable pub walk : (List ℕ → Response) → ℕ → List ℕ → List EntryView
walk ask zero cursor = []
walk ask (suc fuel) cursor = following (walk ask fuel) (ask cursor).body

read_cursor-print_nat : (n : ℕ) → n ≤ max_int64 → read_cursor (print_nat n) ≡ pos n
unfolding read_cursor
read_cursor-print_nat n h =
    let (c, cs, e, digit) = print_nat_head n in
    ap read_cursor e ∙ ap or_default (ap parse_int64 (sym e) ∙ parse_int64-print_nat n h)

following_more :
    (more : List ℕ → List EntryView) (page : List EntryView) (cursor : List ℕ) (c : ℕ) (cs : List ℕ)
    → cursor ≡ c ∷ cs
    → following more (Body.entries page cursor) ≡ page ++ more cursor
following_more more page cursor c cs e =
    ap (λ l. following more (Body.entries page l)) e ∙ ap (λ l. page ++ more l) (sym e)

next_cursor_full :
    (page : List EntryView)
    → (length page == page_size) ≡ true
    → next_cursor page ≡ print_nat (last_id 0 page)
unfolding next_cursor
next_cursor_full page h = rw h refl

next_cursor_last :
    (page : List EntryView) → (length page == page_size) ≡ false → next_cursor page ≡ []
unfolding next_cursor
next_cursor_last page h = rw h refl

-- What a server answers that has the entries `all`.
abbrev Pages : List EntryView → (List ℕ → Response) → Type 0
Pages all ask =
    (cursor : List ℕ) (n : ℕ)
    → read_cursor cursor ≡ pos n
    → (ask cursor).body ≡ (
        let page = take page_size (newest_first (before n all)) in
        Body.entries page (next_cursor page))

module _ (all : List EntryView) (ask : List ℕ → Response) (pages : Pages all ask) where
  page_body :
      (b : ℕ) (rest : List EntryView) (cursor : List ℕ)
      → read_cursor cursor ≡ pos b
      → before b all ≡ rest
      → Descending b rest
      → (ask cursor).body ≡ Body.entries (take page_size rest) (next_cursor (take page_size rest))
  page_body b rest cursor e left d =
      pages cursor b e
      ∙ ap (λ l. Body.entries (take page_size l) (next_cursor (take page_size l)))
          (ap newest_first left ∙ newest_first_sorted b rest d)

  walk_full :
      (fuel last : ℕ) (page tail : List EntryView) (cursor : List ℕ)
      → (ask cursor).body ≡ Body.entries page (print_nat last)
      → walk ask fuel (print_nat last) ≡ tail
      → walk ask (suc fuel) cursor ≡ page ++ tail
  unfolding walk
  walk_full fuel last page tail cursor body others =
      let (c, cs, head, digit) = print_nat_head last in
      ap (following (walk ask fuel)) body
      ∙ following_more (walk ask fuel) page (print_nat last) c cs head
      ∙ ap (λ l. page ++ l) others

  walk_last :
      (fuel : ℕ) (page : List EntryView) (cursor : List ℕ)
      → (ask cursor).body ≡ Body.entries page []
      → walk ask (suc fuel) cursor ≡ page
  unfolding walk
  walk_last fuel page cursor body = ap (following (walk ask fuel)) body

  before_next :
      (k b : ℕ) (rest : List EntryView)
      → before b all ≡ rest
      → Descending b rest
      → before (last_id b (take k rest)) all ≡ drop k rest
  before_next k b rest left d =
      sym (before_before (last_id b (take k rest)) b all (last_id-take b k rest d))
      ∙ ap (before (last_id b (take k rest))) left
      ∙ before_page b k rest d

  -- The two cases of the answer, `k` the size of a page.
  abbrev Rest : ℕ → List EntryView → Type 0
  Rest fuel rest =
      (b : ℕ) (cursor : List ℕ)
      → read_cursor cursor ≡ pos b
      → before b all ≡ rest
      → Descending b rest
      → b ≤ max_int64
      → walk ask fuel cursor ≡ rest

  walk_page :
      (fuel k : ℕ) (rest : List EntryView) (full : Bool)
      → page_size ≡ suc k
      → (length (take (suc k) rest) == page_size) ≡ full
      → (full ≡ true → Rest fuel (drop (suc k) rest))
      → Rest (suc fuel) rest
  walk_page fuel k rest true size e more b cursor read left d small =
      let page = take (suc k) rest in
      let last = last_id b page in
      let full : length page ≡ suc k = ground arith in
      let less = last_id-take b (suc k) rest d in
      let body =
        page_body b rest cursor read left d
        ∙ ap (λ n. Body.entries (take n rest) (next_cursor (take n rest))) size in
      let next = next_cursor_full page e ∙ ap print_nat (last_id_full 0 b k page full) in
      let others =
        more refl last (print_nat last) (read_cursor-print_nat last (omega arith))
          (before_next (suc k) b rest left d) (Descending-drop b (suc k) rest d) (omega arith) in
      walk_full fuel last page (drop (suc k) rest) cursor (body ∙ ap (Body.entries page) next)
        others
      ∙ take-drop (suc k) rest
  walk_page fuel k rest false size e more b cursor read left d small =
      let page = take (suc k) rest in
      let body =
        page_body b rest cursor read left d
        ∙ ap (λ n. Body.entries (take n rest) (next_cursor (take n rest))) size in
      walk_last fuel page cursor (body ∙ ap (Body.entries page) (next_cursor_last page e))
      ∙ elim (take_cases (suc k) rest) [
        | inl full ↦ absurd (ground arith)
        | inr whole_list ↦ whole_list
      ]

  left_over :
      (fuel : ℕ) (rest : List EntryView)
      → length rest < page_size * suc fuel
      → (length (take 50 rest) == page_size) ≡ true
      → length (drop 50 rest) < page_size * fuel
  left_over fuel rest enough full =
      let long = length-take 50 rest (ground arith) in omega (arith, length-drop 50 rest)

  walk-Rest : (fuel : ℕ) (rest : List EntryView) → length rest < page_size * fuel → Rest fuel rest
  walk-Rest zero rest enough = absurd (omega arith)
  walk-Rest (suc fuel) rest enough =
      walk_page fuel 49 rest (length (take 50 rest) == page_size) refl refl
        (λ full. walk-Rest fuel (drop 50 rest) (left_over fuel rest enough full))

-- The account of a request that the caller owns.
module _ (x : Runtime) (r : Request) (text : String) (user account : Uuid) (s : Store)
    (who : caller_id x r ≡ some user) (what : x.uuid_parse text ≡ some account)
    (owner : is_owned account user s.accounts ≡ true) where
  list_entries_owned :
      (f : Fetch) (cursor : List ℕ)
      → list_entries x false f (record r { cursor = cursor }) text s
        ≡ entries_reply (fetch f (page_of x account (read_cursor cursor) s))
  unfolding list_entries caller_id
  list_entries_owned f cursor =
      ap (λ u. entries_for x false f cursor u (x.uuid_parse text) s) who
      ∙ ap (λ a. entries_for x false f cursor (some user) a s) what
      ∙ ap
          (λ o.
            if not o
            then http_error 404 "account not found"
            else entries_reply (fetch f (page_of x account (read_cursor cursor) s)))
          owner

  -- A client that starts without a cursor and follows `next_cursor`, while the queries give all
  -- their rows, gets every entry of its account once that has its transaction, in the order of the
  -- table, within as many calls as the entries fill pages (one more, if the last is full); the
  -- table has its newest row first and its ids are less than the cursor that the server starts
  -- with.
  pub list_entries_complete :
      (fuel : ℕ)
      → NewestFirst 4611686018427387903 s.entries
      → length (entries_of x account s.transactions s.entries) < page_size * fuel
      → walk (λ cursor. list_entries x false whole (record r { cursor = cursor }) text s) fuel []
        ≡ entries_of x account s.transactions s.entries
  unfolding read_cursor
  list_entries_complete fuel order enough =
      let all = entries_of x account s.transactions s.entries in
      let d = Descending-entries_of x account s.transactions 4611686018427387903 s.entries order in
      walk-Rest all (λ cursor. list_entries x false whole (record r { cursor = cursor }) text s)
        (λ cursor n e.
          ap (λ (reply : Response). reply.body) (list_entries_owned whole cursor)
          ∙ ap
              (λ l.
                Body.entries (take page_size (newest_first l))
                  (next_cursor (take page_size (newest_first l))))
              (ap (λ c. entries_before x account c s.transactions s.entries) e
                ∙ entries_before_filter x account n s.transactions s.entries))
        fuel all enough 4611686018427387903 [] refl (before_all 4611686018427387903 all d) d
        (omega arith)

  -- If the connection breaks behind fewer rows than a page has, the answer is a page of these rows,
  -- with the status of a success and without a cursor, however many entries are left.
  pub list_entries_truncated :
      (n : ℕ) (cursor : List ℕ)
      → n < page_size
      → list_entries x false (broken_after n) (record r { cursor = cursor }) text s
        ≡ write_json (Body.entries (take n (page_of x account (read_cursor cursor) s)) [])
  list_entries_truncated n cursor h =
      let rows = page_of x account (read_cursor cursor) s in
      list_entries_owned (broken_after n) cursor
      ∙ ap (λ l. write_json (Body.entries (take n rows) l))
          (next_cursor_last (take n rows) (ground (arith, length-take_bound n rows)))
