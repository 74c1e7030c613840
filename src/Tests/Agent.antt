-- ===== src/Tests/Agent.antt =====
-- The theorems on the agent at concrete lines.
use petty.Shared.{
  ℕ, ◌≤◌, ◌<◌, suc, ◌≡◌, refl, ◌⊎◌, ◌++◌, List, [], ◌∷◌, none, some, true, false, arith, take,
  length, ◌+◌,
}
use petty.Shared.Int.{pos}
use petty.Shared.Result.{ok, err}
use petty.Text.{Str, lit}
use petty.Core.Client.{check_handshake}
use petty.Agent.Protocol.{Request, FileEntry}
use petty.Agent.Os.{Os, Json, DirEntry, Metadata}
use petty.Agent.Exec.{truncate_output, truncation_note, LastBoundary, truncate_output-LastBoundary}
use petty.Agent.Exec.Utf8.{truncate_output-IsUtf8}
use petty.Text.Utf8.{IsUtf8, one, two, empty}
use petty.Agent.Handshake.{first_line, answered, answer, connect_line, first_line-handshake}
use mathlib.Core.List.{Perm}
use petty.Agent.Files.{list_dir}
use petty.Agent.Files.Sorted
use petty.Agent.Files.Sorted.{readable, IsSorted, list_dir-IsSorted}
use petty.Agent.Handler.{handle_request}
use petty.Agent.Handler.Answers.{Answers, handle_request-Answers}
use petty.Agent.Connection.{Connection, Socket, panicked, previewable, handle_connection}
use petty.Agent.Connection.Replies.{
  Works, Sends, Previewable, preview-panicked, requests, handle_connection-Sends,
}
use petty.Shared.{map, All, zero}
use petty.Text.Trim.{trim}
use petty.Agent.Exec.{is_char_boundary}

-- The letter é, cut in the middle.
truncate_output-LastBoundary_example :
    ((3 ≤ 2) × (truncate_output (97 ∷ 195 ∷ 169 ∷ []) 2 ≡ 97 ∷ 195 ∷ 169 ∷ []))
    ⊎ ((2 < 3)
        × ((k : ℕ) × LastBoundary (97 ∷ 195 ∷ 169 ∷ []) 2 k
            × (truncate_output (97 ∷ 195 ∷ 169 ∷ []) 2
                ≡ take k (97 ∷ 195 ∷ 169 ∷ []) ++ truncation_note)))
truncate_output-LastBoundary_example = truncate_output-LastBoundary (97 ∷ 195 ∷ 169 ∷ []) 2

truncate_output-IsUtf8_example :
    IsUtf8 (truncate_output (97 ∷ 195 ∷ 169 ∷ []) 2)
    × (length (truncate_output (97 ∷ 195 ∷ 169 ∷ []) 2) ≤ 2 + 23)
truncate_output-IsUtf8_example = truncate_output-IsUtf8 (97 ∷ 195 ∷ 169 ∷ []) 2 (
    one 97 (195 ∷ 169 ∷ []) (omega arith)
      (two 195 169 [] (omega arith, omega arith) (omega arith, omega arith) empty))

first_line-handshake_example :
    (first_line (connect_line 52) ≡ answered (answer 52))
    × (check_handshake (answer 52) ≡ ok (record { next_id = 1 }))
first_line-handshake_example = first_line-handshake 52 (omega arith)

abbrev file : ℕ → DirEntry
file name = record {
  file_name = name ∷ [];
  metadata = ok (record { is_dir = false; is_file = true; len = 3 });
}

abbrev listed : ℕ → FileEntry
listed name = record { name = name ∷ []; is_dir = false; size = 3 }

-- A system whose world counts the programs that were run.
abbrev pub os : Os
os = record {
  World = ℕ;
  output = λ program args w. (ok (record { code = some (pos 0); stdout = []; stderr = [] }), suc w);
  file_metadata = λ path w. ok (record { is_dir = false; is_file = true; len = 3 });
  read_to_string = λ path w. ok (lit "abc");
  path_exists = λ path w. true;
  create_dir_all = λ path w. (ok tt, w);
  write = λ path text w. (ok tt, w);
  read_dir = λ path w. ok (ok (file 98) ∷ ok (file 97) ∷ []);
}

abbrev pub json : Json
json = record {
  Value = Str;
  from_str = λ s. ok (record { jsonrpc = lit "2.0"; id = 9; method = lit "exec"; params = s });
  to_string = λ r. ok (lit "{}");
  exec_params = λ v. ok v;
  exec_code_params = λ v. ok (v, v);
  path_params = λ v. ok v;
  write_file_params = λ v. ok (v, v);
  exec_result = λ r. ok (lit "{}");
  pong = lit "{}";
  content = λ s. s;
  written = λ b. lit "{}";
  entries = λ es. lit "[]";
}

abbrev run_ls : Request Str
run_ls = record { jsonrpc = lit "2.0"; id = 9; method = lit "exec"; params = lit "ls" }

handle_request-Answers_example : Answers os json run_ls 0 (handle_request os json run_ls 0)
handle_request-Answers_example = handle_request-Answers os json run_ls 0

abbrev socket : Socket os json
socket = λ sent text. none

works : Works os json socket
works = record { text = λ r. lit "{}"; writes = λ r. refl; takes = λ sent s. refl }

abbrev begun : Connection os json
begun = record { world = 0; sent = [] }

abbrev lines : List Str
lines = lit "CONNECT 52\n" ∷ lit "\n" ∷ lit "{}\n" ∷ []

fit : All Previewable lines
unfolding lit previewable trim
fit = (refl, (refl, (refl, tt)))

handle_connection-Sends_example :
    Sends os json socket
      (requests lines)
      begun
      (handle_connection os json socket (map ok lines) begun)
handle_connection-Sends_example = handle_connection-Sends os json socket works lines begun fit

-- Of 199 letters and then é.
abbrev long_line : ℕ → Str
long_line zero = 195 ∷ 169 ∷ []
long_line (suc n) = 97 ∷ long_line n

preview-panicked_example :
    (handle_connection os json socket (ok (connect_line 52) ∷ ok (97 ∷ long_line 198) ∷ []) begun).0
    ≡ err panicked
unfolding trim is_char_boundary
preview-panicked_example =
    preview-panicked os json socket works 52 97 (long_line 198) [] begun (omega arith) (omega arith)
      refl

lists : list_dir os (lit "/tmp") 0 ≡ ok (listed 97 ∷ listed 98 ∷ [])
unfolding list_dir
lists = refl

list_dir-IsSorted_example :
    let es = listed 97 ∷ listed 98 ∷ [] in
    IsSorted es
    × ((ms : List (Str × Metadata)) × (os.read_dir (lit "/tmp") 0 ≡ ok (map readable ms))
        × Perm es (map Sorted.listed ms))
list_dir-IsSorted_example = list_dir-IsSorted os (lit "/tmp") 0 (listed 97 ∷ listed 98 ∷ []) lists
