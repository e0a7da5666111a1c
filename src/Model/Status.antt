-- ===== src/Model/Status.antt =====
-- model/job.go `Status`, which is an `int`, and its two ways over the wire: as the number in a
-- result message (`IntToStatus`) and as the enum of a status message (`convertStatus`,
-- `convertJobStatus`).
use aline_engine.Base.{
  zero, suc, ◌≡◌, refl, Bool, true, false, Option, none, List, [], ◌∷◌, arith, if◌then◌else◌,
  get_elem?,
}
use aline_engine.Base.Int.{ℤ, pos, negsuc, int_eq}
use aline_engine.Base.Map.{is_some}
use aline_engine.Base.Text.{Text, codes}

abbrev pub Status : Type 0
Status = ℤ

-- The enum of the wire, an `int32`.
abbrev pub JobStatus : Type 0
JobStatus = ℤ

abbrev pub status_notrun : Status
status_notrun = pos 0

abbrev pub status_running : Status
status_running = pos 1

abbrev pub status_fail : Status
status_fail = pos 2

abbrev pub status_success : Status
status_success = pos 3

abbrev pub status_stop : Status
status_stop = pos 4

abbrev status_names : List Text
status_names =
    codes "not run" ∷ codes "running" ∷ codes "fail" ∷ codes "success" ∷ codes "stop" ∷ []

-- `none` is the panic of an index outside the list.
unfoldable pub to_string : Status → Option Text
to_string (pos n) = get_elem? status_names n
to_string (negsuc n) = none

-- The status and whether the number was known; an unknown one comes with an error.
pub int_to_status : ℤ → Status × Bool
int_to_status s =
    if int_eq s (pos 0)
    then (status_notrun, true)
    else if int_eq s (pos 1)
    then (status_running, true)
    else if int_eq s (pos 2)
    then (status_fail, true)
    else if int_eq s (pos 3)
    then (status_success, true)
    else if int_eq s (pos 4)
    then (status_stop, true)
    else (status_notrun, false)

abbrev job_status_notrun : JobStatus
job_status_notrun = pos 0

abbrev job_status_running : JobStatus
job_status_running = pos 1

abbrev job_status_fail : JobStatus
job_status_fail = pos 2

abbrev job_status_success : JobStatus
job_status_success = pos 3

abbrev job_status_stop : JobStatus
job_status_stop = pos 4

-- engine_worker.go
unfoldable pub convert_status : Status → JobStatus
convert_status s =
    if int_eq s status_notrun
    then job_status_notrun
    else if int_eq s status_running
    then job_status_running
    else if int_eq s status_fail
    then job_status_fail
    else if int_eq s status_success
    then job_status_success
    else if int_eq s status_stop
    then job_status_stop
    else job_status_notrun

-- engine_master.go
unfoldable pub convert_job_status : JobStatus → Status
convert_job_status s =
    if int_eq s job_status_notrun
    then status_notrun
    else if int_eq s job_status_running
    then status_running
    else if int_eq s job_status_fail
    then status_fail
    else if int_eq s job_status_success
    then status_success
    else if int_eq s job_status_stop
    then status_stop
    else status_notrun

-- The two ways over the wire agree on every integer, also on one that is no status: the status
-- that the master reads from a status message is the one that it reads from a result message.
pub convert_job_status-convert_status :
    (s : Status) → convert_job_status (convert_status s) ≡ (int_to_status s).0
unfolding convert_job_status convert_status int_to_status
convert_job_status-convert_status s = ground arith

-- `ToString` panics exactly at the numbers that `IntToStatus` refuses.
to_string-int_to_status : (s : ℤ) → is_some (to_string s) ≡ (int_to_status s).1
unfolding int_to_status to_string
to_string-int_to_status (negsuc n) = ground arith
to_string-int_to_status (pos zero) = refl
to_string-int_to_status (pos (suc zero)) = refl
to_string-int_to_status (pos (suc (suc zero))) = refl
to_string-int_to_status (pos (suc (suc (suc zero)))) = refl
to_string-int_to_status (pos (suc (suc (suc (suc zero))))) = refl
to_string-int_to_status (pos (suc (suc (suc (suc (suc n)))))) = ground arith

-- A number that `ToString` prints is the status that it stands for.
pub int_to_status_known : (s : ℤ) → is_some (to_string s) ≡ true → (int_to_status s).0 ≡ s
unfolding int_to_status to_string
int_to_status_known (negsuc n) h = cc
int_to_status_known (pos zero) h = refl
int_to_status_known (pos (suc zero)) h = refl
int_to_status_known (pos (suc (suc zero))) h = refl
int_to_status_known (pos (suc (suc (suc zero)))) h = refl
int_to_status_known (pos (suc (suc (suc (suc zero))))) h = refl
int_to_status_known (pos (suc (suc (suc (suc (suc n)))))) h = cc
