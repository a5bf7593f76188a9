-- ===== src/Runbook/Callback.antt =====
-- runbook/callback_context_handler_unix.go and callback_context_handler_windows.go: the named pipe
-- through which a script hands back its callback context, and the buffer that takes it.
--
-- A byte is a number. The pipe itself is the operating system's: what a read of it gives is an
-- argument. An error of the pipe is only logged.
pub mod Laws
use jec.Prelude.{
  ℕ, zero, suc, ◌==◌, Bool, true, false, String, List, [], ◌∷◌, Option, none, some, if◌then◌else◌,
  cat, replicate, Result, ok, err,
}

-- CallbackContextHandlerUnix and CallbackContextHandlerWindows; the listener of the latter is its pipe.
pub record Handler : Type 0 where
  pub pipe_path : String
  pub callback_context_buffer : List ℕ
  pub pipe_opened_by_script : Bool

-- 16 kB
unfoldable pub buffer_size : ℕ
buffer_size = 16384

-- NewCallbackContextHandler; `clean` is filepath.Clean, by which filepath.Join ends.
unfoldable pub new_on_unix : (String → String) → String → Handler
new_on_unix clean execution_id = record {
  pipe_path = clean (cat "/var/tmp/jec/jecCallbackPipe-" execution_id);
  callback_context_buffer = replicate buffer_size 0;
  pipe_opened_by_script = false;
}

unfoldable pub new_on_windows : String → Handler
new_on_windows execution_id = record {
  pipe_path = cat "\\\\.\\pipe\\jecCallbackPipe-" execution_id;
  callback_context_buffer = replicate buffer_size 0;
  pipe_opened_by_script = false;
}

-- `copy(buffer, data)`: the shorter of the two decides how much is written.
unfoldable pub copy : List ℕ → List ℕ → List ℕ
copy [] ys = []
copy (x ∷ xs) [] = x ∷ xs
copy (x ∷ xs) (y ∷ ys) = y ∷ copy xs ys

-- The first half of Read, which waits for the other end of the pipe.
unfoldable pub open_pipe : Handler → Handler
open_pipe h = record h { pipe_opened_by_script = true }

-- The second half of Read: what was read of the pipe, before an error or its end, is in the buffer.
unfoldable pub fill : List ℕ → Handler → Handler
unfolding copy
fill bytes h = record h { callback_context_buffer = copy h.callback_context_buffer bytes }

-- On Windows an error of Accept ends Read before the pipe counts as opened.
unfoldable pub read_on_windows : Result (List ℕ) → Handler → Handler
unfolding open_pipe fill
read_on_windows (err e) h = h
read_on_windows (ok bytes) h = fill bytes (open_pipe h)

-- "Execution Finished!"
abbrev pub default_text : List ℕ
default_text =
    b'E' ∷ b'x' ∷ b'e' ∷ b'c' ∷ b'u' ∷ b't' ∷ b'i' ∷ b'o' ∷ b'n' ∷ b' ' ∷ b'F' ∷ b'i' ∷ b'n' ∷ b'i'
    ∷ b's' ∷ b'h' ∷ b'e' ∷ b'd' ∷ b'!' ∷ []

-- ClosePipe: what it writes to the pipe.
unfoldable pub close_pipe : Handler → Option (List ℕ)
close_pipe h = if h.pipe_opened_by_script then none else some default_text

-- `bytes.Trim(buffer, "\x00")`
unfoldable pub trim_left : List ℕ → List ℕ
trim_left [] = []
trim_left (x ∷ xs) = let rest = trim_left xs in if x == 0 then rest else x ∷ xs

abbrev pub put_back : ℕ → List ℕ → List ℕ
put_back x [] = if x == 0 then [] else x ∷ []
put_back x (y ∷ ys) = x ∷ y ∷ ys

unfoldable pub trim_right : List ℕ → List ℕ
trim_right [] = []
trim_right (x ∷ xs) = put_back x (trim_right xs)

unfoldable pub trim : List ℕ → List ℕ
unfolding trim_left trim_right
trim xs = trim_right (trim_left xs)
