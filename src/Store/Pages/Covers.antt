-- ===== src/Store/Pages/Covers.antt =====
-- The pages are the parts of the whole list, and the total is its length.
use sage_wiki_bridge_wxo.Base.{
  ℕ, zero, suc, ◌+◌, ◌-◌, ◌*◌, ◌%◌, ◌^◌, ◌<◌, ◌≤◌, ◌≡◌, refl, ap, sym, ◌∙◌, inl, inr, Bool, List,
  [], ◌∷◌, ◌++◌, arith, length, map, take, drop, max, Bool-cases,
}
use sage_wiki_bridge_wxo.Table.{select_where}
use sage_wiki_bridge_wxo.Store.Schema.{MessageRow, Db}
use sage_wiki_bridge_wxo.Store.Pages.{
  MessageListQuery, MessageListItem, stands_before, insert_row, order_rows, is_listed, list_item,
  listed_rows, page_size, page_offset, list_messages,
}

take-nil : {A : Type 0} (n : ℕ) → ◌≡◌ {A = List A} (take n []) []
take-nil zero = refl
take-nil (suc n) = refl

take_add : {A : Type 0} (m n : ℕ) (xs : List A) → take (m + n) xs ≡ take m xs ++ take n (drop m xs)
take_add zero n xs = let e : 0 + n ≡ n = omega arith in ap (λ k. take k xs) e
take_add (suc m) n [] =
    let e : suc m + n ≡ suc (m + n) = omega arith in ap (λ k. take k []) e ∙ sym (take-nil n)
take_add (suc m) n (x ∷ xs) =
    let e : suc m + n ≡ suc (m + n) = omega arith in
    ap (λ k. take k (x ∷ xs)) e ∙ ap (λ l. x ∷ l) (take_add m n xs)

small : (x : ℕ) → x < 2 ^ 32 → x % 2 ^ 32 ≡ x
small x h = omega arith

map-append : {A B : Type 0} (f : A → B) (xs ys : List A) → map f (xs ++ ys) ≡ map f xs ++ map f ys
map-append f [] ys = refl
map-append f (x ∷ xs) ys = ap (λ l. f x ∷ l) (map-append f xs ys)

length-insert_row :
    (sort_desc : Bool) (row : MessageRow) (rows : List MessageRow)
    → length (insert_row sort_desc row rows) ≡ suc (length rows)
unfolding insert_row
length-insert_row sort_desc row [] = refl
length-insert_row sort_desc row (other ∷ rows) =
    elim (Bool-cases (stands_before sort_desc row other)) [
      | inl first ↦ rw first refl
      | inr later ↦ rw later (ap suc (length-insert_row sort_desc row rows))
    ]

length-order_rows :
    (sort_desc : Bool) (rows : List MessageRow) → length (order_rows sort_desc rows) ≡ length rows
unfolding order_rows
length-order_rows sort_desc [] = refl
length-order_rows sort_desc (row ∷ rows) =
    length-insert_row sort_desc row (order_rows sort_desc rows)
    ∙ ap suc (length-order_rows sort_desc rows)

module _ (query : MessageListQuery) (db : Db) where
  abbrev pub page_of : ℕ → List MessageListItem
  page_of n = (list_messages (record query { page = n }) db).items

  -- The first pages, one behind the other.
  pub first_pages : ℕ → List MessageListItem
  first_pages zero = []
  first_pages (suc n) = first_pages n ++ page_of (suc n)

  page_of-take :
      (n : ℕ)
      → n * page_size query < 2 ^ 32
      → page_of (suc n)
        ≡ map list_item (take (page_size query) (drop (n * page_size query) (listed_rows query db)))
  unfolding list_messages page_offset page_size listed_rows is_listed
  page_of-take n h =
      let offset : (max (suc n) 1 - 1) * page_size query % 2 ^ 32 ≡ n * page_size query =
        let e : max (suc n) 1 - 1 ≡ n = omega arith in
        ap (λ k. k * page_size query % 2 ^ 32) e ∙ small (n * page_size query) h in
      rw offset refl

  first_pages-take :
      (n : ℕ)
      → n * page_size query ≤ 2 ^ 32
      → first_pages n ≡ map list_item (take (n * page_size query) (listed_rows query db))
  unfolding first_pages
  first_pages-take zero h =
      let e : 0 * page_size query ≡ 0 = omega arith in
      sym (ap (λ k. map list_item (take k (listed_rows query db))) e)
  first_pages-take (suc n) h =
      let rows = listed_rows query db in
      let size = page_size query in
      let e : suc n * size ≡ n * size + size = grind arith in
      let positive : 1 ≤ size = unfold page_size in omega arith in
      ap (λ l. l ++ page_of (suc n)) (first_pages-take n (omega (arith, e)))
      ∙ ap (λ l. map list_item (take (n * size) rows) ++ l)
          (page_of-take n (omega (arith, e, positive)))
      ∙ sym (map-append list_item (take (n * size) rows) (take size (drop (n * size) rows)))
      ∙ ap (map list_item) (sym (take_add (n * size) size rows))
      ∙ ap (λ k. map list_item (take k rows)) (sym e)

  -- The first pages, one behind the other, are the first of the listed rows in their order, and the
  -- total is the number of these rows, as long as the rows of these pages stay within 32 bits.
  pub list_messages-pages :
      (n : ℕ)
      → n * page_size query ≤ 2 ^ 32
      → (first_pages n ≡ map list_item (take (n * page_size query) (listed_rows query db)))
        × ((list_messages query db).total ≡ length (listed_rows query db))
  unfolding list_messages listed_rows
  list_messages-pages n h = (
    first_pages-take n h,
    sym (length-order_rows query.sort_desc (select_where (is_listed query) db.messages)),
  )
