-- ===== src/Util.antt =====
-- util/util.go: Min, ChmodRecursively and CheckLogFile; and CreateTempTestFile, which tests use.
use jec.Prelude.{
  ℕ, Bool, length, total, ◌≡◌, refl, ℤ, ltb_ℤ, if◌then◌else◌, String, List, [], ◌∷◌, Option, none,
  Result, ok, err, cat, some, arith,
}

unfoldable pub min : ℤ → ℤ → ℤ
min x y = if ltb_ℤ y x then y else x

-- What the function of filepath.Walk is called with: a path, or the error of the walk at it.
abbrev pub Walked : Type 0
Walked = String × Option String

-- The paths whose mode is set, and the error that ends the walk. `os_chmod` is the error of os.Chmod.
unfoldable pub chmod_recursively :
    (String → Option String) → List Walked → Option String × List String
chmod_recursively os_chmod [] = (none, [])
chmod_recursively os_chmod ((path, some e) ∷ walk) = (some e, [])
chmod_recursively os_chmod ((path, none) ∷ walk) =
    let (e, paths) = chmod_recursively os_chmod walk in
    elim (os_chmod path) [ some stuck ↦ (some stuck, []) | none ↦ (e, path ∷ paths) ]

abbrev paths_of : List Walked → List String
paths_of [] = []
paths_of ((path, e) ∷ walk) = path ∷ paths_of walk

-- Without an error every path of the walk has its mode set.
pub chmod_recursively_lem :
    (os_chmod : String → Option String) (walk : List Walked)
    → (chmod_recursively os_chmod walk).0 ≡ none
    → (chmod_recursively os_chmod walk).1 ≡ paths_of walk
unfolding chmod_recursively
chmod_recursively_lem os_chmod [] done = refl
chmod_recursively_lem os_chmod ((path, some e) ∷ walk) done = absurd (ground arith)
chmod_recursively_lem os_chmod ((path, none) ∷ walk) done =
    ground (arith, chmod_recursively_lem os_chmod walk)

-- The settings of a lumberjack.Logger; its file is rotated at so many megabytes, and kept so many days.
pub record Logger : Type 0 where
  pub filename : String
  pub max_size : ℤ
  pub max_age : ℤ
  pub local_time : Bool

-- What os.Stat of the log file says after an interval, and what Rotate answers if it is called.
pub data Check : Type 0 where
  there unreadable : Check
  not_there : Option String → Check

-- CheckLogFile over so many intervals: the answers of its calls of Rotate. The `break` ends the
-- `select` alone, so the loop never ends.
unfoldable pub check_log_file : List Check → List (Option String)
check_log_file [] = []
check_log_file (there ∷ checks) = check_log_file checks
check_log_file (unreadable ∷ checks) = check_log_file checks
check_log_file (not_there e ∷ checks) = e ∷ check_log_file checks

abbrev lost : Check → ℕ
lost (not_there e) = 1
lost _ = 0

-- Rotate is called once for each interval after which there is no file, also after an error.
check_log_file_lem : (checks : List Check) → length (check_log_file checks) ≡ total lost checks
unfolding check_log_file
check_log_file_lem [] = refl
check_log_file_lem (there ∷ checks) = omega (arith, check_log_file_lem checks)
check_log_file_lem (unreadable ∷ checks) = omega (arith, check_log_file_lem checks)
check_log_file_lem (not_there e ∷ checks) = omega (arith, check_log_file_lem checks)

-- CreateTempTestFile: the name of ioutil.TempFile for the pattern, unless it or the write fails.
unfoldable pub create_temp_test_file :
    (String → Result String) → (String → Option String) → String → Result String
create_temp_test_file temp_file write file_extension = elim (temp_file (cat "*" file_extension)) [
  | err e ↦ err e
  | ok name ↦ elim (write name) [ none ↦ ok name | some e ↦ err e ]
]
