-- ===== src/Files/Tests.antt =====
-- A server of rank 0 with nothing in its cache, and one of another rank.
use spindle.Prelude.{
  [], ◌∷◌, Bool, true, false, if◌then◌else◌, none, some, CString, str_eq, contains, ◌≡◌, refl,
  arith,
}
use spindle.Requestors.{peer_requested, new_requestor_list, hashval}
use spindle.Requestors.Laws.{new-IsValid}
use spindle.Cache.{empty_cache, put, fresh_entry, Listing, dt_reg}
use mathlib.Core.Option
use spindle.Relay.{Network, new_relay, ldcs_pull, been_broadcast}
use spindle.Files.{FileServer, parse_filename_no_alloc}
use spindle.Files.Directories.{handle_request_directory}
use spindle.Files.Replies.{IsAsked, IsAnswered, handle_request_directory-IsAnswered}

abbrev works : Network
works = record { sends = λ p. true; broadcasts = true; forwards = true }

abbrev lib : CString
lib = 47 ∷ 108 ∷ []

abbrev lib_a : CString
lib_a = 47 ∷ 108 ∷ 47 ∷ 97 ∷ []

abbrev disk : Listing
disk dir = if str_eq dir lib then some ((dt_reg, 97 ∷ []) ∷ []) else none

abbrev server : Bool → FileServer
server rank_0 = record {
  cache = empty_cache;
  relay = new_relay ldcs_pull;
  responsible = rank_0;
  stop_reloc = false;
  cachepath = 47 ∷ 116 ∷ [];
  normalized_tmpdir = 47 ∷ 116 ∷ [];
  local_prefixes = [];
}

parse-lib_a : parse_filename_no_alloc lib_a ≡ (97 ∷ [], lib)
unfolding parse_filename_no_alloc
parse-lib_a = refl

-- A server that has read the directory.
abbrev listing_server : FileServer
listing_server = record (server false) { cache = put empty_cache lib (97 ∷ []) fresh_entry }

server-IsAsked : (rank_0 : Bool) → IsAsked works 7 lib (server rank_0)
unfolding been_broadcast peer_requested new_requestor_list hashval contains
server-IsAsked rank_0 = record {
  pulls = refl;
  works = λ node. refl;
  not_all = refl;
  dso_free = refl;
  file_free = refl;
  dso_valid = new-IsValid;
  file_valid = new-IsValid;
  fresh = refl;
  is_path = record { no_nul = refl; short = omega arith };
}

handle_request_directory-IsAnswered_example :
    (t : FileServer) × (handle_request_directory disk works 7 lib (server true) ≡ some (t, true))
    × IsAnswered works 7 lib (server true) t
handle_request_directory-IsAnswered_example =
    handle_request_directory-IsAnswered disk works 7 lib (server true) (server-IsAsked true) refl
