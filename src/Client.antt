-- ===== src/Client.antt =====
-- examples/example.c: a client of the daemon. What getaddrinfo, the socket and `send` answer are
-- parameters; what the client prints on its terminal is left out.
pub mod Buffer
pub mod Trip
pub mod Rounds
pub mod Ending
pub mod Session
pub mod Socket
use cwdaemon.Base.{
  ℕ, ◌+◌, Bool, true, false, Option, none, some, List, [], ◌∷◌, ◌++◌, leb, ◌==◌, if◌then◌else◌, ℤ,
  pos, negsuc, eqb_ℤ, ltb_ℤ, length, take, drop, replicate, get_or,
}
use cwdaemon.Utils.CString.{codes}

-- K_* of the client; `other` is any other number.
pub data Request : Type 0 where
  k_reset k_message k_speed k_tone k_abort k_stop k_wordmode k_weight k_device k_tod : Request
  k_tune k_ptt k_sdevice k_volume k_reply other : Request

abbrev pub buf_size : ℕ
buf_size = 80

-- `sprintf(buf + at, "%s", text)`; `none` is a write outside of the buffer.
unfoldable pub sprintf : ℕ → List ℕ → List ℕ → Option (List ℕ)
sprintf at text buf =
    if leb (at + length text + 1) buf_size
    then some (take at buf ++ (text ++ 0 ∷ drop (at + length text + 1) buf))
    else none

abbrev pub nuls : ℕ → List ℕ
nuls n = replicate n 0

-- `char buf[BUF_SIZE] = { 0 }`
abbrev pub blank : List ℕ
blank = nuls buf_size

-- `buf[0] = CHAR_ESC; sprintf(buf + 1, …)`
abbrev pub escaped : ℕ → List ℕ
escaped letter = 27 ∷ letter ∷ nuls 78

-- The `switch`: the buffer that is sent.
unfoldable pub fill_buffer : Request → List ℕ → Option (List ℕ)
unfolding sprintf
fill_buffer k_reset value = some (escaped b'0')
fill_buffer k_message value = sprintf 0 value blank
fill_buffer k_speed value = sprintf 2 value (escaped b'2')
fill_buffer k_tone value = sprintf 2 value (escaped b'3')
fill_buffer k_abort value = some (escaped b'4')
fill_buffer k_stop value = some (escaped b'5')
fill_buffer k_wordmode value = some (escaped b'6')
fill_buffer k_weight value = sprintf 2 value (escaped b'7')
fill_buffer k_device value = sprintf 2 value (escaped b'8')
fill_buffer k_ptt value = sprintf 2 value (escaped b'a')
fill_buffer k_tune value = sprintf 2 value (escaped b'c')
fill_buffer k_tod value = sprintf 2 value (escaped b'd')
fill_buffer k_sdevice value = sprintf 2 value (escaped b'f')
fill_buffer k_volume value = sprintf 2 value (escaped b'g')
fill_buffer k_reply value = sprintf 2 value (escaped b'h')
fill_buffer other value = some blank

-- What `netkeyer` hands to `send`, and what it returns.
pub record Keyed : Type 0 where
  pub datagrams : List (List ℕ)
  pub rv : ℤ

-- `send` gets the whole buffer.
abbrev send_buffer : (List ℕ → ℤ) → List ℕ → Keyed
send_buffer send buf =
    if get_or buf 0 0 == 0 then record { datagrams = []; rv = negsuc 0 } else record {
      datagrams = buf ∷ [];
      rv = if eqb_ℤ (send buf) (negsuc 0) then negsuc 0 else pos 0;
    }

unfoldable pub netkeyer : (List ℕ → ℤ) → Request → List ℕ → Option Keyed
unfolding fill_buffer
netkeyer send request value = elim (fill_buffer request value) [
  | none ↦ none
  | some buf ↦ some (send_buffer send buf)
]

-- What `main` does, one step after another.
pub data Step : Type 0 where
  key : Request → List ℕ → Step
  sleep : ℕ → Step

-- from the entry of `main` to its wait for SIGALRM, with `argv[1]` if there is one
unfoldable pub session : Option (List ℕ) → List Step
session device =
    elim device [ none ↦ [] | some name ↦ key k_device name ∷ [] ]
    ++ (key k_message (codes "paris")
        ∷ sleep 3
        ∷ key k_speed (codes "40")
        ∷ key k_message (codes "paris")
        ∷ sleep 2
        ∷ key k_tone (codes "1000")
        ∷ key k_speed (codes "40")
        ∷ key k_message (codes "paris")
        ∷ sleep 2
        ∷ key k_tone (codes "800")
        ∷ key k_weight (codes "20")
        ∷ key k_message (codes "paris")
        ∷ sleep 2
        ∷ key k_weight (codes "-20")
        ∷ key k_message (codes "paris")
        ∷ sleep 2
        ∷ key k_weight (codes "0")
        ∷ key k_message (codes "p++++++++++aris----------")
        ∷ sleep 2
        ∷ key k_message (codes "p~ari~s")
        ∷ sleep 2
        ∷ key k_tune (codes "3")
        ∷ sleep 4
        ∷ key k_message (codes "paris paris")
        ∷ sleep 1
        ∷ key k_abort []
        ∷ sleep 1
        ∷ key k_sdevice (codes "s")
        ∷ key k_message (codes "paris")
        ∷ sleep 2
        ∷ key k_volume (codes "30")
        ∷ key k_message (codes "paris")
        ∷ sleep 2
        ∷ key k_message (codes "< > ! & *")
        ∷ sleep 4
        ∷ key k_volume (codes "70")
        ∷ key k_message (codes "paris")
        ∷ sleep 2
        ∷ key k_sdevice (codes "c")
        ∷ key k_message (codes "paris")
        ∷ sleep 2
        ∷ key k_ptt (codes "1")
        ∷ key k_message (codes "paris")
        ∷ sleep 2
        ∷ key k_ptt (codes "0")
        ∷ key k_tod (codes "20")
        ∷ key k_ptt (codes "1")
        ∷ key k_message (codes "paris")
        ∷ sleep 2
        ∷ key k_ptt (codes "0")
        ∷ key k_tod (codes "0")
        ∷ key k_reset []
        ∷ key k_message (codes "paris paris")
        ∷ [])

-- the handler of SIGALRM: its last request
unfoldable pub catchint : List Step
catchint = key k_abort [] ∷ []
