-- ===== src/Activity/TraceLine/Reading.antt =====
-- activity.go: `parseDistributorLine` reads a line as it is written.
use directory_exporter.Common.{
  All, false, ◌==◌, arith, Bool-cases, All-append, true, List, ◌∷◌, ◌++◌, codes, some, Bytes, ◌≡◌,
  refl, sym, ap, ◌∙◌, inl, inr, subst,
}
use directory_exporter.Go.Os.{FileSystem}
use directory_exporter.Go.Strings.{fields, contains, trim_space}
use directory_exporter.Go.FilePath.{base_name}
use directory_exporter.Go.Words.{IsSolid, fields-blank}
use directory_exporter.Go.Find.{after_prefix-append, from_index-append}
use directory_exporter.Activity.Delay.{Instant}
use directory_exporter.Activity.Distributor.{
  Clock, mark, with_colons, after_colon, distributed_file, line_stamp, names_node,
  parse_distributor_line,
}
use directory_exporter.Activity.TraceLine.{
  TraceLine, clock_digits, clock_text, node_text, line_front, line_end, line_text, IsWritten,
}
use directory_exporter.Activity.TraceLine.Parts.{
  fields-IsWord, split_front, contains_third, before_dot-append, end_fields,
  distributed_file-fields, line_stamp-fields, parse_event-found, with_colons-digits, digits_lem,
  names_either, parse_layouts_first, parse_named,
}

mark_start_once : All (λ c. (b'D' == c) ≡ false) (codes "istributed file")
mark_start_once = ground arith

module _ (node : Bytes) (l : TraceLine) (written : IsWritten node l) where
  end_words : fields (after_colon (trim_space (line_end l))) ≡ l.file ∷ fields l.behind
  end_words =
      let (with_colon, without) =
        end_fields l.file l.behind written.file written.file_start written.behind in
      elim (Bool-cases l.colon) [ inl e ↦ rw e with_colon | inr e ↦ rw e without ]

  end_file : distributed_file (mark ++ line_end l) ≡ some (base_name l.file)
  end_file =
      distributed_file-fields (mark ++ line_end l) (line_end l) l.file (fields l.behind)
        (after_prefix-append mark (line_end l)) end_words

  line_words :
      (rest : List Bytes) × (fields (line_text node l)
        ≡ l.date ∷ (clock_digits l ++ l.subseconds) ∷ rest)
  line_words =
      let (dots, colons, solids) = digits_lem (clock_digits l) written.digits in
      let time = clock_digits l ++ l.subseconds in
      let solid : IsSolid time =
        All-append _ (clock_digits l) l.subseconds solids written.fraction_solid in
      let third = node_text node l ++ (l.level ++ (mark ++ line_end l)) in
      (
        fields third,
        ap fields
              (split_front l.date time (node_text node l) l.level (mark ++ line_end l) b' ' b' ')
            ∙ fields-IsWord l.date (b' ' ∷ (time ++ (b' ' ∷ third))) written.date refl
            ∙ ap (λ r. l.date ∷ r)
                (fields-blank b' ' (time ++ (b' ' ∷ third)) refl
                  ∙ fields-IsWord time (b' ' ∷ third) (refl, solid) refl
                  ∙ ap (λ r. time ∷ r) (fields-blank b' ' third refl)),
      )

  line_stamp-line_text : line_stamp (line_text node l) ≡ some (l.date ++ (b' ' ∷ clock_text l))
  line_stamp-line_text =
      let (dots, colons, solids) = digits_lem (clock_digits l) written.digits in
      let (rest, words) = line_words in
      line_stamp-fields (line_text node l) l.date (clock_digits l ++ l.subseconds) rest words
      ∙ ap (λ r. some (l.date ++ (b' ' ∷ r)))
          (ap with_colons (before_dot-append (clock_digits l) l.subseconds dots written.fraction)
            ∙ with_colons-digits l.hour_tens l.hour l.minute_tens l.minute l.second_tens l.second
                colons)

  line_names : names_node (line_text node l) node ≡ true
  line_names =
      let time = clock_digits l ++ l.subseconds in
      let tail = l.level ++ (mark ++ line_end l) in
      names_either l.dotted (line_text node l) node (
        subst (λ r. contains r (node_text node l) ≡ true)
          (sym (split_front l.date time (node_text node l) l.level (mark ++ line_end l) b' ' b' '))
          (contains_third l.date time (node_text node l) tail b' ' b' '))

-- A line is read as it is written. If its date and its file are words, the file not one that starts
-- with a colon, and what is behind the file is nothing or starts with white space, if its time is six
-- digits with nothing behind them or subseconds without white space behind a dot, and if nothing in
-- front of the mark reads like the mark, then `parseDistributorLine` finds, for the node of the line,
-- the base name of the file and the time that the first layout reads from the date and the digits
-- with colons between the pairs, where it reads one.
pub parse_distributor_line-line_text :
    (fs : FileSystem) (clock : Clock) (node : Bytes) (l : TraceLine) (t : Instant)
    → IsWritten node l
    → clock.parse_in_location (codes "20060102 15:04:05") (l.date ++ (b' ' ∷ clock_text l)) ≡ some t
    → parse_distributor_line fs clock (line_text node l) node ≡ some (t, base_name l.file)
parse_distributor_line-line_text fs clock node l t written h =
    let found =
      from_index-append b'D' (codes "istributed file") (line_front node l) (line_end l)
        mark_start_once written.front in
    parse_named fs clock (line_text node l) node (line_names node l written)
    ∙ parse_event-found fs clock (line_text node l) (mark ++ line_end l) (base_name l.file)
        (l.date ++ (b' ' ∷ clock_text l)) t found (end_file node l written)
        (line_stamp-line_text node l written)
        (parse_layouts_first fs clock (codes "20060102 15:04:05") _
          (l.date ++ (b' ' ∷ clock_text l)) t h)
