-- ===== src/Output/Parse/Stages.antt =====
-- The lines of a log, divided into stages.
use aline_engine.Base.{
  ◌≡◌, ◌≢◌, refl, ap, sym, ◌∙◌, true, false, none, some, List, [], ◌∷◌, ◌++◌, Bool-cases, inl, inr,
  arith,
}
use mathlib.Core.List.{append_assoc, append-nil}
use aline_engine.Base.Map.{Map, lookup, insert, IsMap, keys, is_some}
use aline_engine.Base.Text.{Text, codes, text_eq, text_eq_refl, text_eq_iff, has_prefix}
use aline_engine.Output.Parse.{
  Times, LogStage, LogState, read_log_line, read_log_lines, is_job_line, stage_of, stages_named,
  stages_of, parse_log_lines, log_start,
}

abbrev pub stage_mark : Text
stage_mark = codes "[Pipeline] Stage: "

-- Lines that belong to the stage before them.
abbrev pub IsBody : List Text → Type 0
IsBody [] = Unit {0}
IsBody (line ∷ lines) =
    (is_job_line line ≡ false) × (has_prefix line stage_mark ≡ false) × IsBody lines

abbrev pub AreBodies : Map (List Text) → Type 0
AreBodies [] = Unit {0}
AreBodies ((name, lines) ∷ stages) = IsBody lines × AreBodies stages

-- The stages as they are written: a heading and the lines of the stage.
abbrev pub written_stages : Map (List Text) → List Text
written_stages [] = []
written_stages ((name, lines) ∷ stages) = (stage_mark ++ name) ∷ (lines ++ written_stages stages)

-- The heading is a line of its stage.
abbrev pub with_headings : Map (List Text) → Map (List Text)
with_headings [] = []
with_headings ((name, lines) ∷ stages) = (name, (stage_mark ++ name) ∷ lines) ∷ with_headings stages

abbrev pub logged_stages : Times → Map (List Text) → List LogStage
logged_stages times [] = []
logged_stages times ((name, lines) ∷ stages) =
    stage_of times name ((stage_mark ++ name) ∷ lines) ∷ logged_stages times stages

insert_new :
    (k : Text) (v : List Text) (m : Map (List Text))
    → lookup k m ≡ none
    → insert k v m ≡ m ++ (k, v) ∷ []
unfolding insert lookup
insert_new k v [] h = refl
insert_new k v ((j, w) ∷ m) h = ground (arith, insert_new k v m)

insert_last :
    (k : Text) (v w : List Text) (m : Map (List Text))
    → lookup k m ≡ none
    → insert k v (m ++ (k, w) ∷ []) ≡ m ++ (k, v) ∷ []
unfolding insert lookup
insert_last k v w [] h = rw (text_eq_refl k) refl
insert_last k v w ((j, x) ∷ m) h = ground (arith, insert_last k v w m)

lookup_last :
    (k : Text) (w : List Text) (m : Map (List Text))
    → lookup k m ≡ none
    → lookup k (m ++ (k, w) ∷ []) ≡ some w
unfolding lookup
lookup_last k w [] h = rw (text_eq_refl k) refl
lookup_last k w ((j, x) ∷ m) h = ground (arith, lookup_last k w m)

-- The state while the lines of a stage are read.
abbrev reading : LogState → Text → List Text → LogState
reading s name lines = record s {
  stage_name = name;
  stage_names = s.stage_names ++ (name ∷ []);
  stage_output = s.stage_output ++ ((name, lines) ∷ []);
}

read_heading :
    (times : Times) (name : Text) (s : LogState)
    → lookup name s.stage_output ≡ none
    → read_log_line times (stage_mark ++ name) s ≡ reading s name ((stage_mark ++ name) ∷ [])
unfolding read_log_line has_prefix text_eq
read_heading times name s h =
    rw
      (
        insert_new name [] s.stage_output h,
        lookup_last name [] s.stage_output h,
        insert_last name ((stage_mark ++ name) ∷ []) [] s.stage_output h,
      )
      refl

read_body_line :
    (times : Times) (line name : Text) (lines : List Text) (s : LogState)
    → lookup name s.stage_output ≡ none
    → is_job_line line ≡ false
    → has_prefix line stage_mark ≡ false
    → read_log_line times line (reading s name lines) ≡ reading s name (lines ++ line ∷ [])
unfolding read_log_line
read_body_line times line name lines s h job mark =
    rw
      (
        job,
        mark,
        lookup_last name lines s.stage_output h,
        insert_last name (lines ++ line ∷ []) lines s.stage_output h,
      )
      refl

read_body :
    (times : Times) (name : Text) (done lines rest : List Text) (s : LogState)
    → lookup name s.stage_output ≡ none
    → IsBody lines
    → read_log_lines times (lines ++ rest) (reading s name done)
      ≡ read_log_lines times rest (reading s name (done ++ lines))
unfolding read_log_lines
read_body times name done [] rest s h body = rw (append-nil done) refl
read_body times name done (line ∷ lines) rest s h (job, mark, body) =
    ap (λ (st : LogState). read_log_lines times (lines ++ rest) st)
      (read_body_line times line name done s h job mark)
    ∙ read_body times name (done ++ line ∷ []) lines rest s h body
    ∙ ap (λ (ls : List Text). read_log_lines times rest (reading s name ls))
        (append_assoc done (line ∷ []) lines)

-- None of the stages has been read.
abbrev AreNew : Map (List Text) → Map (List Text) → Type 0
AreNew m [] = Unit {0}
AreNew m ((name, lines) ∷ stages) = (lookup name m ≡ none) × AreNew m stages

lookup_before :
    (k name : Text) (w : List Text) (m : Map (List Text))
    → lookup k m ≡ none
    → name ≢ k
    → lookup k (m ++ (name, w) ∷ []) ≡ none
unfolding lookup
lookup_before k name w [] h n = ground (arith, text_eq_iff name k)
lookup_before k name w ((j, x) ∷ m) h n = ground (arith, lookup_before k name w m)

AreNew-append :
    (name : Text) (w : List Text) (m stages : Map (List Text))
    → lookup name stages ≡ none
    → AreNew m stages
    → AreNew (m ++ (name, w) ∷ []) stages
unfolding lookup
AreNew-append name w m [] h new = tt
AreNew-append name w m ((k, l) ∷ stages) h (n, new) = elim (Bool-cases (text_eq k name)) [
  | inl e ↦ absurd (ground arith)
  | inr e ↦ (
    lookup_before k name w m n (λ p. ground (arith, text_eq_iff k name)),
    AreNew-append name w m stages (ground arith) new,
  )
]

AreNew-nil : (stages : Map (List Text)) → AreNew [] stages
unfolding lookup
AreNew-nil [] = tt
AreNew-nil ((name, lines) ∷ stages) = (refl, AreNew-nil stages)

-- What the first loop leaves.
abbrev HasRead : Map (List Text) → LogState → LogState → Type 0
HasRead stages s t =
    (t.stage_output ≡ s.stage_output ++ with_headings stages)
    × (t.stage_names ≡ s.stage_names ++ keys stages)

read_stages :
    (times : Times) (stages : Map (List Text)) (s : LogState)
    → IsMap stages
    → AreBodies stages
    → AreNew s.stage_output stages
    → HasRead stages s (read_log_lines times (written_stages stages) s)
unfolding read_log_lines
read_stages times [] s distinct bodies new =
    (sym (append-nil s.stage_output), sym (append-nil s.stage_names))
read_stages times ((name, lines) ∷ stages) s (other, distinct) (body, bodies) (n, new) =
    let heading = stage_mark ++ name in
    let t = reading s name (heading ∷ lines) in
    let rest =
      read_stages times stages t distinct bodies
        (AreNew-append name (heading ∷ lines) s.stage_output stages other new) in
    let first =
      ap (λ (st : LogState). read_log_lines times (lines ++ written_stages stages) st)
        (read_heading times name s n)
      ∙ read_body times name (heading ∷ []) lines (written_stages stages) s n body in
    (
      ap (λ (st : LogState). st.stage_output) first
          ∙ rest.0
          ∙ append_assoc s.stage_output ((name, heading ∷ lines) ∷ []) (with_headings stages),
      ap (λ (st : LogState). st.stage_names) first
          ∙ rest.1
          ∙ append_assoc s.stage_names (name ∷ []) (keys stages),
    )

-- The inner loop finds no stage of a name that is not in the list.
stages_named_absent :
    (times : Times) (name : Text) (lines : List Text) (m : Map (List Text))
    → lookup name m ≡ none
    → stages_named times name lines (keys m) ≡ []
unfolding stages_named lookup
stages_named_absent times name lines [] h = refl
stages_named_absent times name lines ((k, l) ∷ m) h =
    ground (arith, stages_named_absent times name lines m)

stages_named_once :
    (times : Times) (name : Text) (lines : List Text) (m : Map (List Text))
    → IsMap m
    → is_some (lookup name m) ≡ true
    → stages_named times name lines (keys m) ≡ stage_of times name lines ∷ []
unfolding stages_named lookup
stages_named_once times name lines [] distinct h = absurd (ground arith)
stages_named_once times name lines ((k, l) ∷ m) (other, distinct) h =
    elim (Bool-cases (text_eq k name)) [
      | inl e ↦ rw e (
          ap (λ x. stage_of times name lines ∷ x)
            (stages_named_absent times name lines m
              (ap (λ (j : Text). lookup j m) (sym ((text_eq_iff k name).0 e)) ∙ other)))
      | inr e ↦ rw e (stages_named_once times name lines m distinct (ground arith))
    ]

abbrev AreIn : Map (List Text) → Map (List Text) → Type 0
AreIn m [] = Unit {0}
AreIn m ((name, lines) ∷ stages) = (is_some (lookup name m) ≡ true) × AreIn m stages

AreIn-cons :
    (k : Text) (l : List Text) (m stages : Map (List Text))
    → AreIn m stages
    → AreIn ((k, l) ∷ m) stages
unfolding lookup
AreIn-cons k l m [] h = tt
AreIn-cons k l m ((name, lines) ∷ stages) (h, hs) = (ground arith, AreIn-cons k l m stages hs)

AreIn-self : (m : Map (List Text)) → AreIn m m
unfolding lookup
AreIn-self [] = tt
AreIn-self ((k, l) ∷ m) = (ground (arith, text_eq_refl k), AreIn-cons k l m m (AreIn-self m))

stages_of_lem :
    (times : Times) (m stages : Map (List Text))
    → IsMap m
    → AreIn m stages
    → stages_of times (keys m) (with_headings stages) ≡ logged_stages times stages
unfolding stages_of
stages_of_lem times m [] distinct h = refl
stages_of_lem times m ((name, lines) ∷ stages) distinct (h, hs) =
    rw
      (
        stages_named_once times name ((stage_mark ++ name) ∷ lines) m distinct h,
        stages_of_lem times m stages distinct hs,
      )
      refl

-- The stages that were written are those that are put together, each from its heading and its lines.
-- The stages have distinct names, none of their lines is empty or begins like a line of the job or a
-- heading, and the map of the stages is visited in the order in which they were put there.
pub parse_log_lines-written_stages :
    (order : Map (List Text) → Map (List Text)) (times : Times) (stages : Map (List Text))
    → IsMap stages
    → AreBodies stages
    → order (with_headings stages) ≡ with_headings stages
    → (parse_log_lines order times (written_stages stages)).stages ≡ logged_stages times stages
unfolding parse_log_lines
parse_log_lines-written_stages order times stages distinct bodies visited =
    let start = log_start (written_stages stages) in
    let (m, n) = read_stages times stages start distinct bodies (AreNew-nil stages) in
    ap
      (λ (names : List Text).
        stages_of times names
          (order (read_log_lines times (written_stages stages) start).stage_output))
      n
    ∙ ap (λ (o : Map (List Text)). stages_of times (keys stages) (order o)) m
    ∙ ap (stages_of times (keys stages)) visited
    ∙ stages_of_lem times stages stages distinct (AreIn-self stages)
