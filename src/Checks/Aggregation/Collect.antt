-- ===== src/Checks/Aggregation/Collect.antt =====
-- What the file of action/action_check_aggregation.go holds.
use mathlib.Core.List.{append_assoc, append-nil}
use aline_engine.Base.{
  ◌≡◌, refl, sym, ap, ◌∙◌, subst, Bool, true, false, ◌||◌, Option, none, some, List, [], ◌∷◌, ◌++◌,
  inl, inr, map, if◌then◌else◌,
}
use aline_engine.Base.Text.{Text, codes}
use aline_engine.Checks.Aggregation.{
  ResultJson, add_named, add_report, read_reports, raw_result, raw_details,
}
use aline_engine.Checks.Gather.Counts.{Fallible-cases}
use aline_engine.Checks.Machine.{Machine, Run}
use aline_engine.Checks.Types.{
  ContractCheckResult, ContractCheckResultDetails, MethodsPropertiesDetails,
}
use aline_engine.Storage.Os.{Fallible, ok, failed, value}
use aline_engine.Utils.Texts.{path_of, has_text, replace_all}

abbrev Results : Type 0
Results = List (ContractCheckResult Text)

-- What a report is known by in a text, and how the text is read then.
record Reading : Type 0 where
  names : List Text
  read : Text → Fallible (ContractCheckResult Text)

abbrev mapped : {A B : Type 0} → (A → B) → Fallible A → Fallible B
mapped f (ok x) = ok (f x)
mapped f (failed e) = failed e

abbrev present : {A : Type 0} → List (Option A) → List A
present [] = []
present (none ∷ xs) = present xs
present (some x ∷ xs) = x ∷ present xs

abbrev option_map : {A B : Type 0} → (A → B) → Option A → Option B
option_map f none = none
option_map f (some x) = some (f x)

module _ {T : Type 0} (marshal : T → Fallible Text) where
  -- Details with their message as text, where it can be printed.
  abbrev printed_details : ContractCheckResultDetails T → Option (ContractCheckResultDetails Text)
  printed_details d =
      option_map
        (λ (t : Text). record { name = d.name; issue = d.issue; gas_limit = []; message = t })
        (value (marshal d.message))

  abbrev printed_result : ContractCheckResult T → ContractCheckResult Text
  printed_result x = record {
    name = x.name;
    result = x.result;
    tool = x.tool;
    solc_version = [];
    details = present (map printed_details x.details);
    total = x.total;
  }

  raw_details_lem :
      (l : List (ContractCheckResultDetails T))
      → raw_details marshal l ≡ present (map printed_details l)
  unfolding raw_details
  raw_details_lem [] = refl
  raw_details_lem (d ∷ ds) = elim (Fallible-cases (marshal d.message)) [
    | inl (t, e) ↦ rw e (
        ap (λ l. record { name = d.name; issue = d.issue; gas_limit = []; message = t } ∷ l)
          (raw_details_lem ds))
    | inr (why, e) ↦ rw e (raw_details_lem ds)
  ]

  raw_result_lem :
      (r : Fallible (ContractCheckResult T)) → raw_result marshal r ≡ mapped printed_result r
  unfolding raw_result
  raw_result_lem (failed e) = refl
  raw_result_lem (ok x) =
      ap
        (λ (l : List (ContractCheckResultDetails Text)). ok (record {
          name = x.name;
          result = x.result;
          tool = x.tool;
          solc_version = [];
          details = l;
          total = x.total;
        }))
        (raw_details_lem x.details)

-- The five kinds of reports, in the order in which a text is searched for them.
abbrev readings : ResultJson → List Reading
readings json =
    record {
      names = codes "Contract Methods Properties Report" ∷ [];
      read = λ text.
          mapped
            (printed_result (λ (t : List MethodsPropertiesDetails).
              mapped (λ (s : Text). replace_all s (codes "\\u001b") []) (json.marshal_methods t)))
            (json.unmarshal_methods text);
    }
    ∷ record {
      names = codes "Code Quality Analysis Report" ∷ [];
      read = λ text. mapped (printed_result json.marshal_style) (json.unmarshal_style text);
    }
    ∷ record {
      names =
          codes "Security Analysis Report"
          ∷ codes "Formal Specification and Verification Report"
          ∷ [];
      read = λ text. mapped (printed_result json.marshal_style) (json.unmarshal_style text);
    }
    ∷ record {
      names = codes "Static analysis report" ∷ [];
      read = λ text. mapped (printed_result json.marshal_eslint) (json.unmarshal_eslint text);
    }
    ∷ record {
      names = codes "Gas Usage Analysis Report" ∷ [];
      read = λ text. json.unmarshal_raw text;
    }
    ∷ []

abbrev names_any : Text → List Text → Bool
names_any text [] = false
names_any text (name ∷ []) = has_text text name
names_any text (name ∷ other ∷ names) = has_text text name || names_any text (other ∷ names)

-- A text as each of the kinds that it names.
abbrev named_readings : Text → List Reading → List (Fallible (ContractCheckResult Text))
named_readings text [] = []
named_readings text (k ∷ ks) =
    if names_any text k.names then k.read text ∷ named_readings text ks else named_readings text ks

abbrev until_failed : List (Fallible (ContractCheckResult Text)) → Results
until_failed [] = []
until_failed (ok x ∷ rs) = x ∷ until_failed rs
until_failed (failed e ∷ rs) = []

-- The results in a text: one for each kind of report that the text names, in the order of the kinds, up
-- to the first that cannot be read.
abbrev pub results_in : ResultJson → Text → Results
results_in json text = until_failed (named_readings text (readings json))

-- What a step adds behind the results that are there.
abbrev Adds : (Results → Results) → List (Fallible (ContractCheckResult Text)) → Type 0
Adds f rs = (l : Results) → f l ≡ l ++ until_failed rs

add_named-Adds :
    (b : Bool) {r r' : Fallible (ContractCheckResult Text)} {next : Results → Results}
    (rs : List (Fallible (ContractCheckResult Text)))
    → r ≡ r'
    → Adds next rs
    → Adds (add_named b r next) (if b then r' ∷ rs else rs)
add_named-Adds false rs e h l = h l
add_named-Adds true {r} {r'} {next} rs e h l =
    subst (λ x. add_named true r next l ≡ l ++ until_failed (x ∷ rs)) e (at r)
  where
    at :
        (x : Fallible (ContractCheckResult Text))
        → add_named true x next l ≡ l ++ until_failed (x ∷ rs)
    at (failed why) = sym (append-nil l)
    at (ok x) = h (l ++ (x ∷ [])) ∙ append_assoc l (x ∷ []) (until_failed rs)

add_report_lem :
    (json : ResultJson) (text : Text)
    → Adds (add_report json text) (named_readings text (readings json))
unfolding add_report
add_report_lem json text =
    add_named-Adds (names_any text (codes "Contract Methods Properties Report" ∷ [])) _
      (raw_result_lem _ (json.unmarshal_methods text))
      (add_named-Adds (names_any text (codes "Code Quality Analysis Report" ∷ [])) _
        (raw_result_lem json.marshal_style (json.unmarshal_style text))
        (add_named-Adds
          (names_any text (
            codes "Security Analysis Report"
            ∷ codes "Formal Specification and Verification Report"
            ∷ []))
          _ (raw_result_lem json.marshal_style (json.unmarshal_style text))
          (add_named-Adds (names_any text (codes "Static analysis report" ∷ [])) _
            (raw_result_lem json.marshal_eslint (json.unmarshal_eslint text))
            (add_named-Adds (names_any text (codes "Gas Usage Analysis Report" ∷ [])) [] refl
              (λ l. sym (append-nil l))))))

-- The results of texts, one text after the other.
abbrev pub results_of : ResultJson → List Text → Results
results_of json [] = []
results_of json (text ∷ texts) = results_in json text ++ results_of json texts

module _ {m : Machine} where
  -- The texts that the paths have.
  abbrev pub AreRead : List Text → List Text → Run m → Type 0
  AreRead [] [] r = Unit {0}
  AreRead (p ∷ ps) (t ∷ ts) r =
      (value (m.os.read_file (path_of p) r.files) ≡ some t) × AreRead ps ts r
  AreRead _ _ r = ⊥

  pub read_reports_ok :
      (json : ResultJson) (paths : List Text) (l l' : Results) (r r' : Run m)
      → read_reports m json paths l r ≡ some (ok l', r')
      → (texts : List Text) × AreRead paths texts r × (l' ≡ l ++ results_of json texts) × (r ≡ r')
  unfolding read_reports
  read_reports_ok json [] l l' r r' e = ([], tt, sym (append-nil l ∙ cc e), cc e)
  read_reports_ok json (p ∷ paths) l l' r r' e =
      elim (Fallible-cases (m.os.read_file (path_of p) r.files)) [
        | inr (why, e1) ↦ absurd cc (rw (read_reports, e1) at e)
        | inl (text, e1) ↦
            let (texts, read, is, same) =
              read_reports_ok json paths (add_report json text l) l' r r'
                (rw (read_reports, e1) at e) in
            (
              text ∷ texts,
              (ap value e1, read),
              is
                  ∙ (ap (λ (x : Results). x ++ results_of json texts) (add_report_lem json text l)
                      ∙ append_assoc l (results_in json text) (results_of json texts)),
              same,
            )
      ]
