-- ===== src/Wire/PathFrame.antt =====
-- internal/wire/add_address_frame.go and paths_frame.go: the bytes of the frames about addresses and
-- paths. The 16 bytes of an IPv4 address are what net.IPv4 makes of the four (`ipv4`), and writing an
-- address, which asks net.IP, is left out.
use mpquic_latency.Base.{
  ℕ, zero, suc, ◌+◌, ◌*◌, ◌/◌, ◌%◌, ◌^◌, not, ltb, ◌==◌, if◌then◌else◌, Option, none, some, List,
  [], ◌∷◌, length, ℤ,
}
use mpquic_latency.Wire.Frame.{AddAddressFrame, PathsFrame}
use mpquic_latency.Wire.AckBytes.{read_delay}
use mpquic_latency.Utils.Buffer.{
  Reader, ◌>>=◌, ◌>>◌, give, throw, read_byte, WireError, Written, written, refused, ◌then_write◌,
}
use mpquic_latency.Utils.ByteOrder.{ByteOrder, get_byte_order, read_uint16, write_uint16}
use mpquic_latency.Utils.Ufloat16.{write_ufloat16}

unfoldable pub read_bytes_one_by_one : ℕ → Reader (List ℕ)
read_bytes_one_by_one zero = give []
read_bytes_one_by_one (suc n) = do b ← read_byte; bs ← read_bytes_one_by_one n; give (b ∷ bs)

abbrev pub read_ip : (ℕ → ℕ → ℕ → ℕ → List ℕ) → ℕ → Reader (List ℕ)
read_ip ipv4 ip_version =
    if ip_version == 4
    then (do a ← read_byte; b ← read_byte; c ← read_byte; d ← read_byte; give (ipv4 a b c d))
    else if ip_version == 6
    then read_bytes_one_by_one 16
    else throw WireError.unknown_ip_version

unfoldable pub parse_add_address_frame : (ℕ → ℕ → ℕ → ℕ → List ℕ) → ℤ → Reader AddAddressFrame
unfolding read_bytes_one_by_one
parse_add_address_frame ipv4 version = do
  read_byte
  ip_version ← read_byte
  ip ← read_ip ipv4 ip_version
  port ← read_uint16 (get_byte_order version)
  give (record { ip_version = ip_version; ip = ip; port = port })

abbrev pub add_address_min_length : AddAddressFrame → ℕ × Option WireError
add_address_min_length f =
    if f.ip_version == 4
    then (1 + 1 + 4 + 2, none)
    else if f.ip_version == 6
    then (1 + 1 + 16 + 2, none)
    else (0, some WireError.unknown_ip_version)

-- The path ids with their remote RTTs, in nanoseconds.
unfoldable pub read_paths : ByteOrder → ℕ → Reader (List (ℕ × ℕ))
read_paths o zero = give []
read_paths o (suc n) = do
  path ← read_byte
  rtt ← read_delay o
  paths ← read_paths o n
  give ((path, rtt * 1000) ∷ paths)

abbrev pub firsts : List (ℕ × ℕ) → List ℕ
firsts [] = []
firsts ((a, b) ∷ xs) = a ∷ firsts xs

abbrev pub seconds : List (ℕ × ℕ) → List ℕ
seconds [] = []
seconds ((a, b) ∷ xs) = b ∷ seconds xs

unfoldable pub parse_paths_frame : ℤ → Reader PathsFrame
unfolding read_paths
parse_paths_frame version = do
  read_byte
  max_num ← read_byte
  num ← read_byte
  if ltb max_num num then throw WireError.too_many_paths else do
    paths ← read_paths (get_byte_order version) num
    give (record {
      max_num_paths = max_num;
      num_paths = num;
      path_ids = firsts paths;
      remote_rtts = seconds paths;
    })

abbrev pub write_paths : ByteOrder → List ℕ → List ℕ → Written
write_paths o (path ∷ ids) (rtt ∷ rtts) =
    written (path % 2 ^ 8 ∷ [])
    then_write write_uint16 o (write_ufloat16 (rtt / 1000))
    then_write write_paths o ids rtts
write_paths o _ _ = written []

unfoldable pub write_paths_frame : PathsFrame → ℤ → Written
write_paths_frame f version =
    written (0x12 ∷ f.max_num_paths ∷ f.num_paths ∷ [])
    then_write (if not (f.num_paths == length f.path_ids)
        then refused WireError.paths_number []
        else if not (length f.path_ids == length f.remote_rtts)
        then refused WireError.missing_rtt []
        else write_paths (get_byte_order version) f.path_ids f.remote_rtts)

-- The sum is an uint8.
abbrev pub paths_min_length : PathsFrame → ℕ
paths_min_length f = (3 + 3 * f.num_paths) % 2 ^ 8
