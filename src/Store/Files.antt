-- ===== src/Store/Files.antt =====
-- rpc-src/store.ts: `_writeState`, `syncDirectory` and `createStateFile` on the two files that they
-- touch. Which operation of the file system fails, and with what code, is a parameter; that a
-- close or a removal whose failure the source ignores has failed changes what it left behind only.
use openzeppelin_foundry_upg.Base.{
  Bool, ◌||◌, Option, none, some, List, [], ◌∷◌, ◌==◌, nat_eq, list_eq, match_option, if◌then◌else◌,
}
use openzeppelin_foundry_upg.Base.Text.{Text, codes}
use openzeppelin_foundry_upg.Store.State.{StoreState, empty_state}

-- A file holds the text of a state, or something that does not parse.
pub data File (C : Type 0) : Type 0 where
  holds : StoreState C → File C
  garbled : File C

-- `temporary` is the file that the latest write opened: each takes a name of its own.
-- `seen` lists what the state file was after each operation, newest first: what a reader finds
-- after a crash.
pub record Files (C : Type 0) : Type 0 where
  pub target : Option (File C)
  pub temporary : Option (File C)
  pub seen : List (Option (File C))

pub data Operation : Type 0 where
  make_directory open_target open_temporary write_file sync_file close_file rename : Operation
  open_directory sync_directory close_directory : Operation
  look_up read_file remove_file : Operation

abbrev pub Faults : Type 0
Faults = Operation → Option Text

-- `EINVAL`, `ENOTSUP` and `EISDIR`
unfoldable pub is_ignored : Text → Bool
is_ignored code = code == codes "EINVAL" || code == codes "ENOTSUP" || code == codes "EISDIR"

-- How a sequence of operations ended: all done, or one failed with a code.
abbrev pub Ending : Type 0
Ending = Option Text

-- The directory is closed in every case once it was opened.
unfoldable pub sync_ending : Faults → Ending
sync_ending faults =
    match_option (faults open_directory)
      (match_option (faults close_directory)
        (match_option (faults sync_directory) none
          (λ code. if is_ignored code then none else some code))
        (λ code. some code))
      (λ code. if is_ignored code then none else some code)

-- The operations before `_syncDirectory`.
abbrev pub commit_operations : List Operation
commit_operations = open_temporary ∷ write_file ∷ sync_file ∷ close_file ∷ rename ∷ []

module _ {C : Type 0} where
  -- What an operation that succeeds does to the files. An opened file is empty until it is written.
  unfoldable pub effect : StoreState C → Operation → Files C → Files C
  effect state open_temporary files = record files { temporary = some garbled }
  effect state write_file files = record files { temporary = some (holds state) }
  effect state rename files = record files { target = files.temporary; temporary = none }
  effect state _ files = files

  -- What is seen after an operation.
  unfoldable pub look : Files C → Files C
  look files = record files { seen = files.target ∷ files.seen }

  -- `rmSync(temporaryPath, { force: true })`, whose failure is ignored and leaves the file.
  unfoldable pub remove_temporary : Faults → Files C → Files C
  remove_temporary faults files = look (record files {
    temporary = match_option (faults remove_file) none (λ code. files.temporary);
  })

  -- Operations in order, up to the first that fails.
  unfoldable pub perform_all : Faults → StoreState C → List Operation → Files C → Files C × Ending
  perform_all faults state [] files = (files, none)
  perform_all faults state (operation ∷ rest) files =
      let later = perform_all faults state rest (look (effect state operation files)) in
      match_option (faults operation) later (λ code. (files, some code))

  -- The removal of the temporary file finds nothing when it was renamed.
  unfoldable pub write_state : Faults → StoreState C → Files C → Files C × Ending
  write_state faults state files =
      match_option (faults make_directory)
        (let (done, ending) = perform_all faults state commit_operations (look files) in
          match_option ending
            (match_option (sync_ending faults) (done, none)
              (λ code. (remove_temporary faults done, some code)))
            (λ code. (remove_temporary faults done, some code)))
        (λ code. (files, some code))

  -- The file is written, synchronised and, in every case, closed.
  unfoldable pub fill_state_file : Faults → Files C → Files C × Ending
  fill_state_file faults files =
      let filled = look (record files { target = some (holds empty_state) }) in
      let (done, ending) =
        match_option (faults write_file) (filled, faults sync_file) (λ code. (files, some code)) in
      (done, match_option (faults close_file) ending (λ code. some code))

  -- `openSync(canonicalPath, 'wx')` refuses an existing file.
  unfoldable pub create_state_file : Faults → Files C → Files C × Ending
  create_state_file faults files =
      match_option (faults make_directory)
        (match_option files.target
          (match_option (faults open_target)
            (let (done, ending) =
                fill_state_file faults (look (record files { target = some garbled })) in
              (done, match_option ending (sync_ending faults) (λ code. some code)))
            (λ code. (files, some code)))
          (λ existing. (files, some (codes "EEXIST"))))
        (λ code. (files, some code))
