-- ===== src/Session/PacketUnpacker/Consumes.antt =====
-- Every parser of a frame reads at least its type byte, and gives none of it back.
use mpquic_latency.Base.{
  ℕ, zero, suc, ◌≤◌, Bool, true, false, if◌then◌else◌, List, [], ◌∷◌, length, arith,
}
use mpquic_latency.Utils.Buffer.{
  Reader, ◌>>=◌, ◌>>◌, give, throw, read_byte, read_full, prepend, bytes_left, Parsed, parsed,
  failed, WireError, and_then,
}
use mpquic_latency.Utils.ByteOrder.{
  ByteOrder, little_endian, big_endian, read_bytes, read_uint_n, read_uint16, read_uint32,
  read_uint64,
}

-- No more than n bytes are left.
abbrev pub Within {ℓ} : {A : Type ℓ} → ℕ → Parsed A → Type 0
Within n (parsed a rest) = length rest ≤ n
Within n (failed e) = Unit {0}

-- A reader that is given at most n bytes leaves at most n.
pub record Shrinks {A : Type 0} (m : Reader A) : Type 0 where
  pub within : (n : ℕ) (bytes : List ℕ) → length bytes ≤ n → Within n (m bytes)

and_then-Within :
    {A B : Type 0} (n : ℕ) (p : Parsed A) (f : A → Reader B)
    → Within n p
    → ((a : A) → Shrinks (f a))
    → Within n (and_then p f)
and_then-Within n (parsed a rest) f w s = (s a).within n rest w
and_then-Within n (failed e) f w s = tt

pub bind-Shrinks :
    {A B : Type 0} (m : Reader A) (f : A → Reader B)
    → Shrinks m
    → ((a : A) → Shrinks (f a))
    → Shrinks (m >>= f)
bind-Shrinks m f s t = record {
  within = λ n bytes le. and_then-Within n (m bytes) f (s.within n bytes le) t;
}

pub then-Shrinks :
    {A B : Type 0} (m : Reader A) (k : Reader B) → Shrinks m → Shrinks k → Shrinks (m >> k)
then-Shrinks m k s t = bind-Shrinks m (λ _. k) s (λ _. t)

pub give-Shrinks : {A : Type 0} (a : A) → Shrinks (give a)
give-Shrinks a = record { within = λ n bytes le. le }

pub throw-Shrinks : {A : Type 0} (e : WireError) → Shrinks (throw {A = A} e)
throw-Shrinks e = record { within = λ n bytes le. tt }

pub if-Shrinks :
    {A : Type 0} (test : Bool) (m k : Reader A)
    → Shrinks m
    → Shrinks k
    → Shrinks (if test then m else k)
if-Shrinks true m k s t = s
if-Shrinks false m k s t = t

read_byte-Within : (n : ℕ) (bytes : List ℕ) → length bytes ≤ n → Within n (read_byte bytes)
read_byte-Within n [] le = tt
read_byte-Within n (b ∷ bytes) le = omega arith

pub read_byte-Shrinks : Shrinks read_byte
read_byte-Shrinks = record { within = read_byte-Within }

prepend-Within : (n b : ℕ) (p : Parsed (List ℕ)) → Within n p → Within n (prepend b p)
prepend-Within n b (parsed bs rest) w = w
prepend-Within n b (failed e) w = tt

read_full-Within : (k n : ℕ) (bytes : List ℕ) → length bytes ≤ n → Within n (read_full k bytes)
read_full-Within zero n bytes le = le
read_full-Within (suc k) n [] le = tt
read_full-Within (suc k) n (b ∷ bytes) le =
    prepend-Within n b (read_full k bytes) (read_full-Within k n bytes (omega arith))

pub read_full-Shrinks : (k : ℕ) → Shrinks (read_full k)
read_full-Shrinks k = record { within = read_full-Within k }

pub bytes_left-Shrinks : Shrinks bytes_left
bytes_left-Shrinks = record { within = λ n bytes le. le }

read_bytes-Shrinks : (o : ByteOrder) (len k i res : ℕ) → Shrinks (read_bytes o len k i res)
unfolding read_bytes
read_bytes-Shrinks o len zero i res = give-Shrinks res
read_bytes-Shrinks o len (suc k) i res =
    bind-Shrinks read_byte _ read_byte-Shrinks (λ b. read_bytes-Shrinks o len k (suc i) _)

pub read_uint_n-Shrinks : (o : ByteOrder) (len : ℕ) → Shrinks (read_uint_n o len)
unfolding read_uint_n
read_uint_n-Shrinks o len = read_bytes-Shrinks o len len 0 0

byte_then : {A : Type 0} (f : ℕ → Reader A) → ((b : ℕ) → Shrinks (f b)) → Shrinks (read_byte >>= f)
byte_then f = bind-Shrinks read_byte f read_byte-Shrinks

pub read_uint16-Shrinks : (o : ByteOrder) → Shrinks (read_uint16 o)
unfolding read_uint16
read_uint16-Shrinks little_endian = byte_then _ (λ a. byte_then _ (λ b. give-Shrinks _))
read_uint16-Shrinks big_endian = byte_then _ (λ a. byte_then _ (λ b. give-Shrinks _))

pub read_uint32-Shrinks : (o : ByteOrder) → Shrinks (read_uint32 o)
unfolding read_uint32
read_uint32-Shrinks little_endian =
    byte_then _ (λ a. byte_then _ (λ b. byte_then _ (λ c. byte_then _ (λ d. give-Shrinks _))))
read_uint32-Shrinks big_endian =
    byte_then _ (λ a. byte_then _ (λ b. byte_then _ (λ c. byte_then _ (λ d. give-Shrinks _))))

pub read_uint64-Shrinks : (o : ByteOrder) → Shrinks (read_uint64 o)
unfolding read_uint64
read_uint64-Shrinks little_endian = byte_then _ (λ a. byte_then _ (λ b. byte_then _ (λ c.
    byte_then _ (λ d.
      byte_then _ (λ e. byte_then _ (λ f. byte_then _ (λ g. byte_then _ (λ h. give-Shrinks _))))))))
read_uint64-Shrinks big_endian = byte_then _ (λ a. byte_then _ (λ b. byte_then _ (λ c.
    byte_then _ (λ d.
      byte_then _ (λ e. byte_then _ (λ f. byte_then _ (λ g. byte_then _ (λ h. give-Shrinks _))))))))

-- A frame's parser reads its first byte.
abbrev pub Consumes : {A : Type 0} → Reader A → Type 0
Consumes m = (b : ℕ) (bytes : List ℕ) → Within (length bytes) (m (b ∷ bytes))

pub byte_then-Consumes :
    {A : Type 0} (f : ℕ → Reader A) → ((b : ℕ) → Shrinks (f b)) → Consumes (read_byte >>= f)
byte_then-Consumes f s b bytes = (s b).within (length bytes) bytes (omega arith)
