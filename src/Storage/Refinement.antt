-- ===== src/Storage/Refinement.antt =====
-- The operations of job/job.go on texts refine the commands of the map of Storage/Contract.antt.
use aline_engine.Base.{
  ◌≡◌, ◌≢◌, refl, sym, ◌∙◌, ap, false, Option, none, some, List, [], ◌∷◌, arith, if◌then◌else◌,
  Bool-cases, inl, inr,
}
use aline_engine.Base.Text.{Text}
use aline_engine.Storage.Contract.{
  Command, put_job, put_detail, put_log, remove_job, remove_detail, Store, target, written, apply,
  apply_all, AreNamed, run, run_all, contents,
}
use aline_engine.Storage.Details.{
  save_string_job_detail, read_string_job_detail, delete_job_detail, get_job_log_string,
  save_job_log_string,
}
use aline_engine.Storage.Effects.{
  value-read_string_from_file, read-save_self, read-save_ne, read-delete_self, read-delete_ne,
}
use aline_engine.Storage.Files.{
  is_file_exist, save_string_to_file, delete_file, unless_error, get_job_file_path,
  get_job_detail_file_path, get_job_detail_log_path,
}
use aline_engine.Storage.Jobs.{save_job, get_job, delete_job}
use aline_engine.Storage.Locations.{
  Location, job_file, detail_file, log_file, location_eq, location_eq_iff, IsNamed, path_of,
  path_of_injective,
}
use aline_engine.Storage.Os.{Os, Codec, IsLawful, value}
use aline_engine.Utils.Paths.{FilePath}

module _ (os : Os) (codec : Codec) (config : FilePath) (law : IsLawful os) where
  -- The file that a location names holds what is read of it.
  abbrev pub file_of : Location → os.Files → Option Text
  file_of l s = value (os.read_file (path_of config l) s)

  contents-file_of : (l : Location) (s : os.Files) → contents os codec config s l ≡ file_of l s
  unfolding get_job read_string_job_detail get_job_log_string
  contents-file_of (job_file n) s =
      value-read_string_from_file os law (get_job_file_path config n) s
  contents-file_of (detail_file n i) s =
      value-read_string_from_file os law (get_job_detail_file_path config n i) s
  contents-file_of (log_file n i) s =
      value-read_string_from_file os law (get_job_detail_log_path config n i) s

  -- A step that writes a text to a path, or removes the file there.
  abbrev effect : Option Text → FilePath → os.Files → Option Text × os.Files
  effect (some t) p s = save_string_to_file os p t s
  effect none p s = delete_file os p s

  effect_self :
      (w : Option Text) (p : FilePath) (s : os.Files)
      → (effect w p s).0 ≡ none
      → value (os.read_file p (effect w p s).1) ≡ w
  effect_self (some t) p s h = ap value (read-save_self os law p t s h)
  effect_self none p s h = read-delete_self os law p s h

  effect_ne :
      (w : Option Text) (p q : FilePath) (s : os.Files)
      → p ≢ q
      → value (os.read_file q (effect w p s).1) ≡ value (os.read_file q s)
  effect_ne (some t) p q s h = read-save_ne os law p q t s h
  effect_ne none p q s h = read-delete_ne os law p q s h

  -- The tests of `deleteFile` are made twice for a run.
  delete_again :
      (p : FilePath) (s : os.Files) (e : Text)
      (h : (if is_file_exist os p s then delete_file os p s else (some e, s)).0 ≡ none)
      → (if is_file_exist os p s then delete_file os p s else (some e, s)) ≡ delete_file os p s
  delete_again p s e = elim (Bool-cases (is_file_exist os p s)) [
    | inl b ↦ rw b (λ h. refl)
    | inr b ↦ rw b (λ h. absurd (ground arith))
  ]

  run-effect :
      (c : Command) (s : os.Files)
      → (run os codec config c s).0 ≡ none
      → run os codec config c s ≡ effect (written c) (path_of config (target c)) s
  unfolding save_job save_string_job_detail save_job_log_string delete_job delete_job_detail
  run-effect (put_job n t) s h = refl
  run-effect (put_detail n i t) s h = refl
  run-effect (put_log n i t) s h = refl
  run-effect (remove_job n) s h = refl
  run-effect (remove_detail n i) s h = delete_again (get_job_detail_file_path config n i) s _ h

  differ : (l m : Location) → location_eq l m ≡ false → m ≢ l
  differ l m e p = ground (arith, location_eq_iff l m)

  after :
      (w : Option Text) (m : Location) (s : os.Files)
      → IsNamed m
      → (effect w (path_of config m) s).0 ≡ none
      → (l : Location) → IsNamed l
      → file_of l (effect w (path_of config m) s).1 ≡ (if location_eq l m then w else file_of l s)
  after w m s hm h l hl = elim (Bool-cases (location_eq l m)) [
    | inl e ↦ rw e (
        ap (λ (k : Location). file_of k (effect w (path_of config m) s).1)
          ((location_eq_iff l m).0 e)
        ∙ effect_self w (path_of config m) s h)
    | inr e ↦ rw e (
        effect_ne w (path_of config m) (path_of config l) s
          (λ p. differ l m e (path_of_injective config m l hm hl p)))
  ]

  contents-run :
      (c : Command) (s : os.Files)
      → IsNamed (target c)
      → (run os codec config c s).0 ≡ none
      → (l : Location) → IsNamed l
      → contents os codec config (run os codec config c s).1 l
        ≡ apply c (contents os codec config s) l
  contents-run c s hc h l hl =
      contents-file_of l (run os codec config c s).1
      ∙ ap (λ (r : Option Text × os.Files). value (os.read_file (path_of config l) r.1))
          (run-effect c s h)
      ∙ after (written c) (target c) s hc
          (ap (λ (r : Option Text × os.Files). r.0) (sym (run-effect c s h)) ∙ h) l hl
      ∙ ap (λ (o : Option Text). if location_eq l (target c) then written c else o)
          (sym (contents-file_of l s))

  apply_all_at :
      (cs : List Command) (l : Location) (st st' : Store)
      → st l ≡ st' l
      → apply_all cs st l ≡ apply_all cs st' l
  apply_all_at [] l st st' h = h
  apply_all_at (c ∷ cs) l st st' h =
      apply_all_at cs l (apply c st) (apply c st')
        (ap (λ (o : Option Text). if location_eq l (target c) then written c else o) h)

  -- A sequence without an error has none in its first part.
  pub first_part :
      (r : Option Text × os.Files) (f : os.Files → Option Text × os.Files)
      → (unless_error os r f).0 ≡ none
      → (r.0 ≡ none) × (unless_error os r f ≡ f r.1)
  first_part (none, s) f h = (refl, refl)
  first_part (some e, s) f h = absurd (ground arith)

  -- After a sequence of writes and removals without an error, what is read of any job, run or log is
  -- what the same sequence leaves in the map of what was read before. Names are plain path elements, and
  -- the operating system keeps the laws of a file system.
  pub contents-run_all :
      (cs : List Command) (s : os.Files)
      → AreNamed cs
      → (run_all os codec config cs s).0 ≡ none
      → (l : Location) → IsNamed l
      → contents os codec config (run_all os codec config cs s).1 l
        ≡ apply_all cs (contents os codec config s) l
  contents-run_all [] s hs h l hl = refl
  contents-run_all (c ∷ cs) s (hc, hs) h l hl =
      let e = first_part (run os codec config c s) (run_all os codec config cs) h in
      let s' = (run os codec config c s).1 in
      ap (λ (r : Option Text × os.Files). contents os codec config r.1 l) e.1
      ∙ contents-run_all cs s' hs (ap (λ (r : Option Text × os.Files). r.0) (sym e.1) ∙ h) l hl
      ∙ apply_all_at cs l (contents os codec config s') (apply c (contents os codec config s))
          (contents-run c s hc e.0 l hl)
