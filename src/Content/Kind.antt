-- ===== src/Content/Kind.antt =====
-- The kinds of the operators of a content stream: the names of each arm of the match of
-- `classify_operator` in crates/core/src/content.rs are a kind here.
use pdfv.Base.{Bytes, Bool, false, ◌||◌, List, [], ◌∷◌, if◌then◌else◌}
use pdfv.Name.{codes, bytes_eq}

pub data OperatorKind : Type 0 where
  begin_image text_boundary font_operator state_operator position_operator show_operator :
      OperatorKind
  begin_marked marked_point end_marked save restore graphics_operator : OperatorKind
  ext_state color_space_operator color_operator shading_operator invoke path_operator : OperatorKind
  compatibility_operator other_operator : OperatorKind

abbrev among : Bytes → List Bytes → Bool
among op [] = false
among op (name ∷ names) = bytes_eq op name || among op names

unfoldable pub operator_kind : Bytes → OperatorKind
unfolding bytes_eq
operator_kind op =
    if among op (codes "BI" ∷ [])
    then begin_image
    else if among op (codes "BT" ∷ codes "ET" ∷ [])
    then text_boundary
    else if among op (codes "Tf" ∷ [])
    then font_operator
    else if among op
        (codes "Tc" ∷ codes "Tw" ∷ codes "Tz" ∷ codes "TL" ∷ codes "Tr" ∷ codes "Ts" ∷ [])
    then state_operator
    else if among op (codes "Td" ∷ codes "TD" ∷ codes "Tm" ∷ codes "T*" ∷ [])
    then position_operator
    else if among op (codes "Tj" ∷ codes "TJ" ∷ codes "'" ∷ codes "\"" ∷ [])
    then show_operator
    else if among op (codes "BMC" ∷ codes "BDC" ∷ [])
    then begin_marked
    else if among op (codes "MP" ∷ codes "DP" ∷ [])
    then marked_point
    else if among op (codes "EMC" ∷ [])
    then end_marked
    else if among op (codes "q" ∷ [])
    then save
    else if among op (codes "Q" ∷ [])
    then restore
    else if among op (
        codes "cm"
        ∷ codes "w"
        ∷ codes "J"
        ∷ codes "j"
        ∷ codes "M"
        ∷ codes "d"
        ∷ codes "ri"
        ∷ codes "i"
        ∷ [])
    then graphics_operator
    else if among op (codes "gs" ∷ [])
    then ext_state
    else if among op (codes "CS" ∷ codes "cs" ∷ [])
    then color_space_operator
    else if among op (
        codes "SC"
        ∷ codes "SCN"
        ∷ codes "sc"
        ∷ codes "scn"
        ∷ codes "G"
        ∷ codes "g"
        ∷ codes "RG"
        ∷ codes "rg"
        ∷ codes "K"
        ∷ codes "k"
        ∷ [])
    then color_operator
    else if among op (codes "sh" ∷ [])
    then shading_operator
    else if among op (codes "Do" ∷ [])
    then invoke
    else if among op (
        codes "m"
        ∷ codes "l"
        ∷ codes "c"
        ∷ codes "v"
        ∷ codes "y"
        ∷ codes "h"
        ∷ codes "re"
        ∷ codes "S"
        ∷ codes "s"
        ∷ codes "f"
        ∷ codes "F"
        ∷ codes "f*"
        ∷ codes "B"
        ∷ codes "B*"
        ∷ codes "b"
        ∷ codes "b*"
        ∷ codes "n"
        ∷ codes "W"
        ∷ codes "W*"
        ∷ [])
    then path_operator
    else if among op (codes "BX" ∷ codes "EX" ∷ [])
    then compatibility_operator
    else other_operator
