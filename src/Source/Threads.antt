-- ===== src/Source/Threads.antt =====
-- What an upsert of an item into a thread makes of the text.
use sage_wiki_bridge_wxo.Base.{
  ℕ, arith, ◌+◌, ◌≤◌, ◌≡◌, refl, ap, ◌∙◌, sym, ◌⊎◌, inl, inr, some, ◌++◌, length, take, drop,
  drop-add, take-append-drop, Option-cases,
}
use sage_wiki_bridge_wxo.Text.{Text, lit, trim_end, strip_newlines, find?}
use sage_wiki_bridge_wxo.Source.{
  append_thread, thread_start_marker, thread_end_marker, item_start_marker, item_end_marker,
  replace_item, insert_item, insert_into_thread, upsert_in_thread, upsert_ai_thread_item,
}
use sage_wiki_bridge_wxo.Source.First.{
  IsFirst, Lacks, find?-Lacks, behind, find?-IsFirst, find?-drop, find?-bound, find?-behind,
  drop-append, take-append, take-add,
}

abbrev closing_line : Text
closing_line = lit "<<< /wechat-thread >>>"

insert_item-parts :
    (item : Text) {a a' b b' : Text}
    → a ≡ a'
    → b ≡ b'
    → insert_item a item b
      ≡ trim_end a' ++ (lit "\n\n" ++ (trim_end item ++ (lit "\n\n" ++ strip_newlines b')))
unfolding insert_item
insert_item-parts item p q = rw (p, q) refl

replace_item-parts :
    (item : Text) {a a' b b' : Text}
    → a ≡ a'
    → b ≡ b'
    → replace_item a item b
      ≡ trim_end a' ++ (lit "\n" ++ (trim_end item ++ (lit "\n" ++ strip_newlines b')))
unfolding replace_item
replace_item-parts item p q = rw (p, q) refl

module _ (current thread_id message_key item : Text) where
  abbrev thread_start : Text
  thread_start = thread_start_marker thread_id

  abbrev item_start : Text
  item_start = item_start_marker message_key

  abbrev item_end : Text
  item_end = item_end_marker message_key

  -- The item in a thread of its own behind the text.
  abbrev Appended : Text → Type 0
  Appended result =
      result
      ≡ trim_end current
        ++ (lit "\n\n"
            ++ (thread_start
                ++ (lit "\n<<< wechat-thread >>>\n\n"
                    ++ (trim_end item
                        ++ (lit "\n\n<<< /wechat-thread >>>\n"
                            ++ (thread_end_marker ++ lit "\n"))))))

  -- The thread stands in the text: from its first start marker on, its body goes to the first end
  -- marker behind.
  pub record IsThread (before body after : Text) : Type 0 where
    pub rest : Text
    pub starts : IsFirst thread_start current before rest
    pub ends : IsFirst thread_end_marker (thread_start ++ rest) body after

  -- The body has no start marker of the item, or no end marker behind the first one.
  abbrev pub NoItem : Text → Type 0
  NoItem body =
      Lacks item_start body
      ⊎ ((before : Text) × (rest : Text) × IsFirst item_start body before rest
          × Lacks item_end (item_start ++ rest))

  -- The text with an item put into a thread.
  pub data ThreadUpsert (result : Text) : Type 0 where
    -- No start marker, so the thread is new,
    added : Lacks thread_start current → Appended result → ThreadUpsert result
    -- or a start marker without an end marker behind it,
    unended :
        (before rest : Text)
        → IsFirst thread_start current before rest
        → Lacks thread_end_marker (thread_start ++ rest)
        → Appended result
        → ThreadUpsert result
    -- or a thread with an old item, from the first start marker in it to the end marker,
    replaced :
        (before body after : Text)
        → IsThread before body after
        → (lead rest old trail : Text) → IsFirst item_start body lead rest
        → IsFirst item_end (item_start ++ rest) old trail
        → result
          ≡ trim_end (before ++ lead)
            ++ (lit "\n"
                ++ (trim_end item
                    ++ (lit "\n" ++ strip_newlines (trail ++ (thread_end_marker ++ after)))))
        → ThreadUpsert result
    -- or a thread with a closing line,
    inserted :
        (before body after : Text)
        → IsThread before body after
        → NoItem body
        → (lead rest : Text) → IsFirst closing_line body lead rest
        → result
          ≡ trim_end (before ++ lead)
            ++ (lit "\n\n"
                ++ (trim_end item
                    ++ (lit "\n\n"
                        ++ strip_newlines
                            ((closing_line ++ rest) ++ (thread_end_marker ++ after)))))
        → ThreadUpsert result
    -- or one without.
    inserted_last :
        (before body after : Text)
        → IsThread before body after
        → NoItem body
        → Lacks closing_line body
        → result
          ≡ trim_end (before ++ body)
            ++ (lit "\n\n"
                ++ (trim_end item ++ (lit "\n\n" ++ strip_newlines (thread_end_marker ++ after))))
        → ThreadUpsert result

  module _ (at relative_end : ℕ) (found : find? thread_start current ≡ some at)
      (ends : find? thread_end_marker (drop at current) ≡ some relative_end) where
    abbrev before : Text
    before = take at current

    abbrev body : Text
    body = take relative_end (drop at current)

    abbrev end_and_after : Text
    end_and_after = drop relative_end (drop at current)

    abbrev after : Text
    after = behind thread_end_marker (drop at current) relative_end

    is_thread : IsThread before body after
    is_thread = record {
      rest = behind thread_start current at;
      starts = find?-IsFirst thread_start current at found;
      ends =
          rw (← find?-drop thread_start current at found)
            (find?-IsFirst thread_end_marker (drop at current) relative_end ends);
    }

    is_end : end_and_after ≡ thread_end_marker ++ after
    is_end = find?-drop thread_end_marker (drop at current) relative_end ends

    take_part : (i : ℕ) → i ≤ length body → take (at + i) current ≡ before ++ take i body
    take_part i h =
        take-add at i current
        ∙ ap (λ t. before ++ t)
            (ap (take i) (sym (take-append-drop relative_end (drop at current)))
              ∙ take-append i body end_and_after h)

    drop_part : (i : ℕ) → i ≤ length body → drop (at + i) current ≡ drop i body ++ end_and_after
    drop_part i h =
        drop-add at i current
        ∙ ap (drop i) (sym (take-append-drop relative_end (drop at current)))
        ∙ drop-append i body end_and_after h

    insert-ThreadUpsert :
        NoItem body → ThreadUpsert (insert_into_thread current at (at + relative_end) body item)
    unfolding insert_into_thread
    insert-ThreadUpsert no_item = elim (Option-cases (find? closing_line body)) [
      | inl missing ↦
          rw (missing, insert_into_thread)
            (inserted_last before body after is_thread no_item
              (find?-Lacks closing_line body missing)
              (insert_item-parts item (take-add at relative_end current)
                (drop-add at relative_end current ∙ is_end)))
      | inr (i, closes) ↦
          let bound = find?-bound closing_line body i closes in
          rw (closes, insert_into_thread)
            (inserted before body after is_thread no_item (take i body) (behind closing_line body i)
              (find?-IsFirst closing_line body i closes)
              (insert_item-parts item (take_part i bound) (
                drop_part i bound
                ∙ ap (λ t. t ++ end_and_after) (find?-drop closing_line body i closes)
                ∙ ap (λ t. (closing_line ++ behind closing_line body i) ++ t) is_end)))
    ]

    replace-ThreadUpsert :
        (i j : ℕ)
        → find? item_start body ≡ some i
        → find? item_end (drop i body) ≡ some j
        → ThreadUpsert (
            replace_item (take (at + i) current) item (drop (at + i + j + length item_end) current))
    replace-ThreadUpsert i j starts item_ends =
        let bound = find?-bound item_start body i starts in
        let far : at + i + j + length item_end ≡ (at + i) + (j + length item_end) = omega arith in
        replaced before body after is_thread (take i body) (behind item_start body i)
          (take j (drop i body)) (behind item_end (drop i body) j)
          (find?-IsFirst item_start body i starts)
          (rw (← find?-drop item_start body i starts)
            (find?-IsFirst item_end (drop i body) j item_ends))
          (replace_item-parts item (take_part i bound) (
            ap (λ k. drop k current) far
            ∙ drop-add (at + i) (j + length item_end) current
            ∙ ap (drop (j + length item_end)) (drop_part i bound)
            ∙ find?-behind item_end (drop i body) j item_ends end_and_after
            ∙ ap (λ t. behind item_end (drop i body) j ++ t) is_end))

    in_thread-ThreadUpsert :
        ThreadUpsert (upsert_in_thread current at (at + relative_end) body message_key item)
    unfolding upsert_in_thread
    in_thread-ThreadUpsert = elim (Option-cases (find? item_start body)) [
      | inl missing ↦
          rw (missing, upsert_in_thread)
            (insert-ThreadUpsert (inl (find?-Lacks item_start body missing)))
      | inr (i, starts) ↦ elim (Option-cases (find? item_end (drop i body))) [
        | inl missing ↦
            rw (starts, missing, upsert_in_thread)
              (insert-ThreadUpsert (
                inr (
                  take i body,
                  behind item_start body i,
                  find?-IsFirst item_start body i starts,
                  rw (← find?-drop item_start body i starts)
                      (find?-Lacks item_end (drop i body) missing),
                )))
        | inr (j, item_ends) ↦
            rw (starts, item_ends, upsert_in_thread) (replace-ThreadUpsert i j starts item_ends)
      ]
    ]

-- An item goes into the thread that stands from the first start marker of its id to the first end
-- marker behind that: in the place of what stands there from the first start marker of its message
-- to the first end marker behind it, or else in front of the closing line, or else at the end.
-- Without the markers of the thread, a new thread with the item is put behind the text. White space
-- at the end of the item and of the text before its place, and line ends in front of the text behind
-- it, are left out, and all else of the text stays.
pub upsert_ai_thread_item-ThreadUpsert :
    (current thread_id message_key item : Text)
    → ThreadUpsert current thread_id message_key item
        (upsert_ai_thread_item current thread_id message_key item)
unfolding upsert_ai_thread_item append_thread
upsert_ai_thread_item-ThreadUpsert current thread_id message_key item =
    let thread_start = thread_start_marker thread_id in
    elim (Option-cases (find? thread_start current)) [
      | inl missing ↦
          rw (missing, upsert_ai_thread_item)
            (added (find?-Lacks thread_start current missing) refl)
      | inr (at, found) ↦ elim (Option-cases (find? thread_end_marker (drop at current))) [
        | inl missing ↦
            rw (found, missing, upsert_ai_thread_item)
              (unended (take at current) (behind thread_start current at)
                (find?-IsFirst thread_start current at found)
                (rw (← find?-drop thread_start current at found)
                  (find?-Lacks thread_end_marker (drop at current) missing))
                refl)
        | inr (relative_end, ends) ↦
            rw (found, ends, upsert_ai_thread_item)
              (in_thread-ThreadUpsert current thread_id message_key item at relative_end found ends)
      ]
    ]
