-- ===== src/Activity/TraceLine/Parts.antt =====
-- The parts that `parseDistributorLine` takes out of a line, one by one.
use directory_exporter.Common.{
  Bool, true, false, List, [], ◌∷◌, ◌++◌, ◌==◌, ℕ, some, Bytes, if◌then◌else◌, ◌≡◌, refl, sym, ap,
  ◌∙◌, All, arith, subst,
}
use mathlib.Core.List.{append_assoc}
use directory_exporter.Go.Os.{FileSystem}
use directory_exporter.Go.Strings.{
  trim, trim_left, is_space, fields, contains, from_index, after_prefix, trim_space,
}
use directory_exporter.Go.FilePath.{base_name}
use directory_exporter.Go.Words.{
  IsSolid, IsBreak, fields-word, fields-blank, fields-trim_space, trim_space-solid,
}
use directory_exporter.Go.Find.{from_index-absent, contains-append}
use directory_exporter.Activity.Delay.{Instant}
use directory_exporter.Activity.Distributor.{
  Clock, mark, layouts, before_dot, with_colons, after_colon, distributed_file, line_stamp,
  names_node, parse_layouts, parse_event, parse_distributor_line,
}
use directory_exporter.Activity.TraceLine.{IsDigit, IsFraction, IsWord, starts_with_colon}

pub fields-IsWord : (w s : Bytes) → IsWord w → IsBreak s → fields (w ++ s) ≡ w ∷ fields s
fields-IsWord [] s (filled, solid) ends = absurd (cc filled)
fields-IsWord (c ∷ w) s (filled, solid) ends = fields-word c w s solid ends

pub split_front :
    (a b c s t : Bytes) (x y : ℕ)
    → (a ++ (x ∷ (b ++ (y ∷ (c ++ s))))) ++ t ≡ a ++ (x ∷ (b ++ (y ∷ (c ++ (s ++ t)))))
split_front a b c s t x y =
    append_assoc a (x ∷ (b ++ (y ∷ (c ++ s)))) t
    ∙ ap (λ r. a ++ (x ∷ r)) (append_assoc b (y ∷ (c ++ s)) t)
    ∙ ap (λ r. a ++ (x ∷ (b ++ (y ∷ r)))) (append_assoc c s t)

join_front :
    (a b z : Bytes) (x y : ℕ) → (a ++ (x ∷ (b ++ (y ∷ [])))) ++ z ≡ a ++ (x ∷ (b ++ (y ∷ z)))
join_front a b z x y =
    append_assoc a (x ∷ (b ++ (y ∷ []))) z ∙ ap (λ r. a ++ (x ∷ r)) (append_assoc b (y ∷ []) z)

pub contains_third :
    (a b p s : Bytes) (x y : ℕ) → contains (a ++ (x ∷ (b ++ (y ∷ (p ++ s))))) p ≡ true
contains_third a b p s x y =
    subst (λ r. contains r p ≡ true) (join_front a b (p ++ s) x y)
      (contains-append (a ++ (x ∷ (b ++ (y ∷ [])))) p s)

-- A digit is neither a dot, nor a colon, nor white space.
digit_lem :
    (c : ℕ) → IsDigit c → ((c == b'.') ≡ false) × ((c == b':') ≡ false) × (is_space c ≡ false)
digit_lem c h = ground arith

pub before_dot-append :
    (w s : Bytes) → All (λ c. (c == b'.') ≡ false) w → IsFraction s → before_dot (w ++ s) ≡ w
unfolding before_dot
before_dot-append [] [] h f = refl
before_dot-append [] (c ∷ s) h f = rw f refl
before_dot-append (c ∷ w) s (here, h) f = rw here (ap (λ r. c ∷ r) (before_dot-append w s h f))

trim_space_blank : (s : Bytes) → trim_space (b' ' ∷ s) ≡ trim_space s
unfolding trim_space trim trim_left
trim_space_blank s = refl

colon_stays : (c : ℕ) (s : Bytes) → (c == b':') ≡ false → after_colon (c ∷ s) ≡ c ∷ s
unfolding after_colon
colon_stays c s h = rw h refl

pub end_fields :
    (file behind : Bytes)
    → IsWord file
    → starts_with_colon file ≡ false
    → IsBreak behind
    → (fields (after_colon (trim_space (b':' ∷ (b' ' ∷ (file ++ behind))))) ≡ file ∷ fields behind)
      × (fields (after_colon (trim_space (b' ' ∷ (file ++ behind)))) ≡ file ∷ fields behind)
unfolding after_colon
end_fields [] behind (filled, solid) start ends = absurd (cc filled)
end_fields (c ∷ w) behind (filled, solid) start ends =
    let words = fields-blank b' ' ((c ∷ w) ++ behind) refl ∙ fields-word c w behind solid ends in
    let (left, e, same) = trim_space-solid b':' (b' ' ∷ ((c ∷ w) ++ behind)) refl in
    let (left', e', same') = trim_space-solid c (w ++ behind) solid.0 in
    (
      ap (λ r. fields (after_colon r)) e ∙ fields-trim_space left ∙ same ∙ words,
      ap (λ r. fields (after_colon r)) (trim_space_blank (c ∷ (w ++ behind)) ∙ e')
          ∙ ap fields (colon_stays c left' start ∙ sym e')
          ∙ fields-trim_space (c ∷ (w ++ behind))
          ∙ fields-word c w behind solid ends,
    )

pub distributed_file-fields :
    (text tail f : Bytes) (fs : List Bytes)
    → after_prefix text mark ≡ some tail
    → fields (after_colon (trim_space tail)) ≡ f ∷ fs
    → distributed_file text ≡ some (base_name f)
unfolding distributed_file fields base_name trim_space
distributed_file-fields text tail f fs p q =
    rw (p, distributed_file) (rw (q, distributed_file) refl)

pub line_stamp-fields :
    (line date time : Bytes) (rest : List Bytes)
    → fields line ≡ date ∷ time ∷ rest
    → line_stamp line ≡ some (date ++ (b' ' ∷ with_colons (before_dot time)))
unfolding line_stamp
line_stamp-fields line date time rest p = rw (p, line_stamp) refl

pub parse_event-found :
    (fs : FileSystem) (clock : Clock) (line text file stamp : Bytes) (t : Instant)
    → from_index line mark ≡ some text
    → distributed_file text ≡ some file
    → line_stamp line ≡ some stamp
    → parse_layouts fs clock layouts stamp ≡ some t
    → parse_event fs clock line ≡ some (t, file)
unfolding parse_event
parse_event-found fs clock line text file stamp t p q r s = rw (p, q, r, s, parse_event) refl

contains-absent : (d : ℕ) (s : Bytes) → All (λ x. (x == d) ≡ false) s → contains s (d ∷ []) ≡ false
unfolding contains
contains-absent d s h = rw (from_index-absent d s h, contains) refl

pub with_colons-digits :
    (a b c d e f : ℕ)
    → All (λ x. (x == b':') ≡ false) (a ∷ b ∷ c ∷ d ∷ e ∷ f ∷ [])
    → with_colons (a ∷ b ∷ c ∷ d ∷ e ∷ f ∷ []) ≡ a ∷ b ∷ b':' ∷ c ∷ d ∷ b':' ∷ e ∷ f ∷ []
unfolding with_colons
with_colons-digits a b c d e f h = rw (contains-absent b':' (a ∷ b ∷ c ∷ d ∷ e ∷ f ∷ []) h) refl

pub digits_lem :
    (w : Bytes)
    → All IsDigit w
    → All (λ x. (x == b'.') ≡ false) w × All (λ x. (x == b':') ≡ false) w × IsSolid w
digits_lem [] h = (tt, tt, tt)
digits_lem (c ∷ w) (here, h) =
    let (dot, colon, solid) = digit_lem c here in
    let (dots, colons, solids) = digits_lem w h in ((dot, dots), (colon, colons), (solid, solids))

pub names_either :
    (dotted : Bool) (line node : Bytes)
    → contains line (b'[' ∷ (node ++ (if dotted then b'.' else b']') ∷ [])) ≡ true
    → names_node line node ≡ true
names_either true line node h = ground (arith, h)
names_either false line node h = ground (arith, h)

module _ (fs : FileSystem) (clock : Clock) where
  pub parse_layouts_first :
      (layout : Bytes) (others : List Bytes) (stamp : Bytes) (t : Instant)
      → clock.parse_in_location layout stamp ≡ some t
      → parse_layouts fs clock (layout ∷ others) stamp ≡ some t
  unfolding parse_layouts
  parse_layouts_first layout others stamp t h = rw (h, parse_layouts) refl

  pub parse_named :
      (line node : Bytes)
      → names_node line node ≡ true
      → parse_distributor_line fs clock line node ≡ parse_event fs clock line
  unfolding parse_distributor_line
  parse_named line node h = rw (h, parse_distributor_line) refl
