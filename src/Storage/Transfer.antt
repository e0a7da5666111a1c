-- ===== src/Storage/Transfer.antt =====
-- A file of a worker's jobs folder, sent under its relative path, lands at the same place below the
-- master's jobs folder.
use aline_engine.Base.{ℕ, suc, ◌≡◌, refl, sym, ◌∙◌, ap, ◌+◌, List, [], ◌∷◌, ◌++◌, length, drop}
use mathlib.Core.List.{append_assoc, append-nil}
use native.Mathlib.Numerals.{unary_clauses}
use aline_engine.Base.Text.{Text, text_eq, has_prefix-append}
use aline_engine.Storage.Files.{save_file, get_jobs_dir, jobs_name}
use aline_engine.Storage.Os.{Os}
use aline_engine.Storage.Shared.{get_relative_jobs_path, save_received_file}
use aline_engine.Utils.Paths.{FilePath, join, render, below}
use aline_engine.Utils.Paths.Laws.{AreElements, join_elements, enter_all_elements}
use aline_engine.Utils.Strings.{split, split_absent, split-append}

below-append : (p q : FilePath) → below (p ++ q) ≡ below p ++ below q
below-append [] q = refl
below-append (e ∷ p) q =
    ap (◌∷◌ b'/') (rw (below-append p q) (sym (append_assoc e (below p) (below q))))

render_lem : (p : FilePath) (e : Text) (q : FilePath) → render (p ++ e ∷ q) ≡ below (p ++ e ∷ q)
unfolding render
render_lem [] e q = refl
render_lem (x ∷ p) e q = refl

drop_behind : (s : Text) (b : ℕ) (t : Text) → drop (suc (length s)) (s ++ b ∷ t) ≡ t
drop_behind [] b t = refl
drop_behind (a ∷ s) b t = drop_behind s b t

drop_past : (s : Text) (b : ℕ) (t : Text) → drop (length s + 1) (s ++ b ∷ t) ≡ t
drop_past s b t = simp unary_clauses (drop_behind s b t)

-- The elements of a path as one text, and back.
abbrev names : Text → List Text → Text
names e es = e ++ below es

split-names : (e : Text) (es : List Text) → AreElements (e ∷ es) → split b'/' (names e es) ≡ e ∷ es
split-names e [] (h, hs) = rw (append-nil e) (split_absent b'/' e h.whole)
split-names e (x ∷ es) (h, hs) =
    split-append b'/' e (names x es) h.whole ∙ ap (◌∷◌ e) (split-names x es hs)

jobs_dir_lem : (config : FilePath) → get_jobs_dir config ≡ config ++ (jobs_name ∷ [])
unfolding get_jobs_dir text_eq
jobs_dir_lem config =
    join_elements config (jobs_name ∷ []) (record { plain = refl; whole = refl }, tt)

render_jobs_dir : (config : FilePath) → render (get_jobs_dir config) ≡ below (get_jobs_dir config)
render_jobs_dir config = rw (jobs_dir_lem config) (render_lem config jobs_name [])

relative_names :
    (config : FilePath) (e : Text) (es : List Text)
    → get_relative_jobs_path config (render (get_jobs_dir config ++ e ∷ es)) ≡ names e es
unfolding get_relative_jobs_path
relative_names config e es =
    let jd = get_jobs_dir config in
    let whole = render_lem jd e es ∙ below-append jd (e ∷ es) in
    rw (whole, render_jobs_dir config, has_prefix-append (below jd) (b'/' ∷ names e es))
      (drop_past (below jd) b'/' (names e es))

-- A file below the worker's jobs folder, sent under its relative path, is saved by the master at the
-- same place below its own jobs folder. The elements of the path are plain.
pub save_received_file-get_relative_jobs_path :
    (os : Os) (worker master : FilePath) (e : Text) (es : List Text) (content : Text) (s : os.Files)
    → AreElements (e ∷ es)
    → save_received_file os master
        (record {
          path = get_relative_jobs_path worker (render (get_jobs_dir worker ++ e ∷ es));
          content = content;
        })
        s
      ≡ save_file os (get_jobs_dir master ++ e ∷ es) content s
unfolding save_received_file join
save_received_file-get_relative_jobs_path os worker master e es content s h =
    rw
      (
        relative_names worker e es,
        split-names e es h,
        enter_all_elements (get_jobs_dir master) (e ∷ es) h,
      )
      refl
