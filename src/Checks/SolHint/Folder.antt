-- ===== src/Checks/SolHint/Folder.antt =====
-- The `Post` of action/action_solhint.go on a folder of tables.
use aline_engine.Base.{◌≡◌, refl, ap, ◌∙◌, true, ◌&&◌, Option, some, List, [], ◌∷◌}
use aline_engine.Base.Text.{Text, codes}
use aline_engine.Checks.Gather.{
  Gathered, nothing, add_details, gathered_result, opened_names, gather_files, save_result,
}
use aline_engine.Checks.Lines.{lines_of, written_lines, AreLines, lines_of-written_lines}
use aline_engine.Checks.Machine.{Machine, Run, next, ◌>>=◌}
use aline_engine.Checks.SolHint.{SolHint, find_name, sol_name, add_solhint_file, solhint_post}
use aline_engine.Checks.SolHint.Table.{
  Row, row_texts, AreRows, details_in, is_clean, read_findings-row_texts,
}
use aline_engine.Checks.Types.{ContractCheckResult, StyleGuideDetails, style_guide_report}
use aline_engine.Storage.Os.{Fallible, ok}
use aline_engine.Utils.Paths.{FilePath, join}
use aline_engine.Utils.Texts.{path_of}

-- The name of a file, and the rows that it holds.
pub record Table : Type 0 where
  pub name : Text
  pub rows : List Row

abbrev pub table_names : List Table → List Text
table_names [] = []
table_names (t ∷ ts) = t.name ∷ table_names ts

-- The files of the folder hold the tables.
abbrev pub AreTables : (m : Machine) → FilePath → List Table → Run m → Type 0
AreTables m dir [] r = Unit {0}
AreTables m dir (t ∷ ts) r =
    (m.os.read_file (join dir (t.name ∷ [])) r.files ≡ ok (written_lines (row_texts t.rows)))
    × AreLines (row_texts t.rows)
    × AreRows t.rows
    × AreTables m dir ts r

abbrev pub with_table : SolHint → Table → Gathered StyleGuideDetails → Gathered StyleGuideDetails
with_table a t g =
    add_details (find_name a.file_path a.base_path (sol_name t.name)) (details_in t.rows)
      (g.success && is_clean t.rows) g

-- What is gathered of tables: the findings in them, in their order.
abbrev pub of_tables :
    SolHint → List Table → Gathered StyleGuideDetails → Gathered StyleGuideDetails
of_tables a [] g = g
of_tables a (t ∷ ts) g = of_tables a ts (with_table a t g)

add_solhint_file-written_lines :
    (a : SolHint) (t : Table) (g : Gathered StyleGuideDetails)
    → AreLines (row_texts t.rows)
    → AreRows t.rows
    → add_solhint_file a t.name (lines_of (written_lines (row_texts t.rows))) g
      ≡ some (with_table a t g)
unfolding add_solhint_file
add_solhint_file-written_lines a t g h k =
    rw
      (
        add_solhint_file,
        lines_of-written_lines (row_texts t.rows) h,
        read_findings-row_texts t.rows [] g.success k,
      )
      refl

gather_files-tables :
    (m : Machine) (a : SolHint) (dir : FilePath) (ts : List Table) (g : Gathered StyleGuideDetails)
    (r : Run m)
    → AreTables m dir ts r
    → gather_files (add_solhint_file a) dir (table_names ts) g r ≡ some (ok (of_tables a ts g), r)
unfolding gather_files
gather_files-tables m a dir [] g r h = refl
gather_files-tables m a dir (t ∷ ts) g r (read, lines, rows, h) =
    rw (gather_files, read, add_solhint_file-written_lines a t g lines rows)
      (gather_files-tables m a dir ts (with_table a t g) r h)

opened_names_lem :
    (m : Machine) (dir : FilePath) (names : List Text) (r : Run m)
    → m.is_dir dir r.files ≡ ok true
    → m.os.read_dir dir r.files ≡ ok names
    → opened_names dir r ≡ some (ok names, r)
unfolding opened_names
opened_names_lem m dir names r is_dir listed = rw (opened_names, is_dir, listed) refl

-- On a folder whose files hold printed findings and other lines, `Post` does not panic: it
-- saves the result that lists, file by file, every finding with its line, column, level and
-- note, and no other, and that fails if there is one. The columns of a finding have no two
-- spaces beside each other and none at the end, line and column hold no colon and no white
-- space round them, the other lines have no two spaces beside each other, and every line is
-- shorter than the buffer of the reader and does not end in a carriage return.
pub solhint_post-tables :
    (m : Machine) (marshal : ContractCheckResult (List StyleGuideDetails) → Fallible Text)
    (a : SolHint) (ts : List Table) (r : Run m)
    → m.is_dir (path_of a.path) r.files ≡ ok true
    → m.os.read_dir (path_of a.path) r.files ≡ ok (table_names ts)
    → AreTables m (path_of a.path) ts r
    → solhint_post m marshal a r
      ≡ save_result marshal
          (path_of a.path)
          (gathered_result style_guide_report (codes "Solhint") (of_tables a ts nothing))
          r
unfolding solhint_post
solhint_post-tables m marshal a ts r is_dir names h =
    let dir = path_of a.path in
    ap
      (λ (y : Option (Fallible (List Text) × Run m)). next y (λ (l : List Text).
        gather_files (add_solhint_file a) dir l nothing >>= λ (g : Gathered StyleGuideDetails).
        save_result marshal dir (gathered_result style_guide_report (codes "Solhint") g)))
      (opened_names_lem m dir (table_names ts) r is_dir names)
    ∙ ap
        (λ (y : Option (Fallible (Gathered StyleGuideDetails) × Run m)).
          next y (λ (g : Gathered StyleGuideDetails).
            save_result marshal dir (gathered_result style_guide_report (codes "Solhint") g)))
        (gather_files-tables m a dir ts nothing r h)
