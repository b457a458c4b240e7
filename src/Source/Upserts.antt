-- ===== src/Source/Upserts.antt =====
-- What an upsert of a daily entry makes of the text.
use sage_wiki_bridge_wxo.Base.{
  ◌+◌, ◌≡◌, refl, ap, ◌∙◌, inl, inr, ◌++◌, length, take, drop, drop-add, Option-cases,
}
use sage_wiki_bridge_wxo.Text.{Text, lit, trim_end, strip_newlines, find?}
use sage_wiki_bridge_wxo.Source.{
  append_entry, daily_start_marker, daily_end_marker, replace_entry, upsert_daily_entry,
}
use sage_wiki_bridge_wxo.Source.First.{
  IsFirst, Lacks, find?-Lacks, behind, find?-IsFirst, find?-drop,
}

module _ (start_marker end_marker entry current : Text) where
  -- The entry behind the rest of the text.
  abbrev Appended : Text → Type 0
  Appended result = result ≡ trim_end current ++ (lit "\n\n" ++ (trim_end entry ++ lit "\n"))

  -- The text of a day with an entry put into it.
  pub data DailyUpsert (result : Text) : Type 0 where
    -- No start marker, so the entry is new,
    added : Lacks start_marker current → Appended result → DailyUpsert result
    -- or a start marker without an end marker behind it,
    unended :
        (before rest : Text)
        → IsFirst start_marker current before rest
        → Lacks end_marker (start_marker ++ rest)
        → Appended result
        → DailyUpsert result
    -- or an old entry, from the first start marker to the first end marker behind it.
    replaced :
        (before rest body after : Text)
        → IsFirst start_marker current before rest
        → IsFirst end_marker (start_marker ++ rest) body after
        → result
          ≡ trim_end before
            ++ (lit "\n\n" ++ (trim_end entry ++ (lit "\n" ++ strip_newlines after)))
        → DailyUpsert result

-- An entry takes the place of what stands from the first start marker of its message to the first
-- end marker behind that; without these markers it is put behind the text. It is set off by an empty
-- line, without the white space at its end and that of the text before it, and without the line ends
-- in front of the text behind it, and all else of the text stays.
pub upsert_daily_entry-DailyUpsert :
    (current message_key entry : Text)
    → DailyUpsert
        (daily_start_marker message_key)
        (daily_end_marker message_key)
        entry
        current
        (upsert_daily_entry current message_key entry)
unfolding upsert_daily_entry append_entry replace_entry
upsert_daily_entry-DailyUpsert current message_key entry =
    let start_marker = daily_start_marker message_key in
    let end_marker = daily_end_marker message_key in
    elim (Option-cases (find? start_marker current)) [
      | inl missing ↦
          rw (missing, upsert_daily_entry) (added (find?-Lacks start_marker current missing) refl)
      | inr (start, found) ↦
          let first = find?-IsFirst start_marker current start found in
          let here = find?-drop start_marker current start found in
          elim (Option-cases (find? end_marker (drop start current))) [
            | inl missing ↦
                rw (found, missing, upsert_daily_entry)
                  (unended (take start current) (behind start_marker current start) first
                    (rw (← here) (find?-Lacks end_marker (drop start current) missing)) refl)
            | inr (relative_end, ends) ↦
                let tail : drop (start + relative_end + length end_marker) current
                    ≡ behind end_marker (drop start current) relative_end =
                  drop-add (start + relative_end) (length end_marker) current
                  ∙ ap (drop (length end_marker)) (drop-add start relative_end current) in
                rw (found, ends, upsert_daily_entry)
                  (replaced (take start current) (behind start_marker current start)
                    (take relative_end (drop start current))
                    (behind end_marker (drop start current) relative_end) first
                    (rw (← here) (find?-IsFirst end_marker (drop start current) relative_end ends))
                    (ap
                      (λ t.
                        trim_end (take start current)
                        ++ (lit "\n\n" ++ (trim_end entry ++ (lit "\n" ++ strip_newlines t))))
                      tail))
          ]
    ]
