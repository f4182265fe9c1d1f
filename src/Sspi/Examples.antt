-- ===== src/Sspi/Examples.antt =====
-- The theorems on sealed messages and on the listening socket at concrete inputs.
use win32_experiments.Common.{
  Bool, false, Option, ◌^◌, ◌&&◌, zero, ◌==◌, ℕ, suc, ◌+◌, ◌-◌, ◌≡◌, refl, ap, true, [], ◌∷◌, ◌++◌,
  none, some, length, take, length-take, replicate, arith,
}
use win32_experiments.Framing.{from_le32}
use win32_experiments.Sspi.{Bytes, sec_success, continue_needed, Provider, Link}
use win32_experiments.Sspi.Sealed.{Cipher, IsCipher, encrypt_this, decrypt_this}
use win32_experiments.Sspi.Sealed.RoundTrip.{
  Fits, encrypt_this-Fits, decrypt_this-encrypt_this, decrypt_this-none,
}

-- A cipher that adds one to each byte, with a trailer of one byte where there is room.
abbrev raise : Bytes → Bytes
raise [] = []
raise (b ∷ bs) = (b + 1) ∷ raise bs

abbrev lower : Bytes → Bytes
lower [] = []
lower (b ∷ bs) = (b - 1) ∷ lower bs

lower-raise : (bs : Bytes) → lower (raise bs) ≡ bs
lower-raise [] = refl
lower-raise (b ∷ bs) = let e : b + 1 - 1 ≡ b = omega arith in rw (e, lower-raise bs)

length-raise : (bs : Bytes) → length (raise bs) ≡ length bs
length-raise [] = refl
length-raise (b ∷ bs) = ap suc (length-raise bs)

abbrev raising : Cipher (Unit {0})
raising = record {
  encrypt = λ n plain s. (0, take n (9 ∷ []), raise plain, s);
  decrypt = λ trailer sealed s. (0, lower sealed, s);
  verify = λ signature signed s. (0, s);
}

abbrev AnyPair : Unit {0} → Unit {0} → Type 0
AnyPair s t = Unit {0}

raising-IsCipher : IsCipher raising AnyPair
raising-IsCipher = record {
  trailer_fits = λ n plain s. (let k = length-take {A = ℕ} n (9 ∷ []) in omega arith);
  same_length = λ n plain s. length-raise plain;
  opens = λ n plain s t p e. (refl, lower-raise plain);
}

abbrev greeting : Bytes
greeting = 104 ∷ 105 ∷ []

abbrev memory : Bytes
memory = replicate 9 0

encrypt_this-Fits_example :
    Fits raising AnyPair raising-IsCipher memory
      (encrypt_this raising greeting (length greeting) memory 3 tt).0
encrypt_this-Fits_example =
    encrypt_this-Fits raising AnyPair raising-IsCipher greeting memory 3 tt (omega arith) refl

decrypt_this-encrypt_this_example :
    (output : Bytes) × (size ss : ℕ) × (u : Unit {0}) × ((encrypt_this raising greeting
        (length greeting)
        memory
        3
        tt).0
      ≡ some (output, size))
    × (decrypt_this raising (take size output ++ 1 ∷ 2 ∷ []) size tt
        ≡ some (ss, greeting, length greeting, u))
    × (sec_success ss ≡ true)
decrypt_this-encrypt_this_example =
    decrypt_this-encrypt_this raising AnyPair raising-IsCipher greeting memory (1 ∷ 2 ∷ []) 3 tt tt
      tt (omega arith) refl refl

decrypt_this-none_example : decrypt_this raising (200 ∷ 0 ∷ 0 ∷ 0 ∷ 7 ∷ []) 5 tt ≡ none
unfolding from_le32
decrypt_this-none_example =
    decrypt_this-none raising (200 ∷ 0 ∷ 0 ∷ 0 ∷ 7 ∷ []) 5 tt (omega arith) (omega arith)
      (omega arith) (omega arith)

-- A connection with some messages still to come, and whether there is a context.
record Talk : Type 0 where
  left : ℕ
  context : Bool

-- A package that makes a context on the first call, refuses another new one, and is done with the last message.
abbrev accept_next : Bool → Bool → ℕ → ℕ × Bytes × Talk
accept_next true false n = (continue_needed, 1 ∷ [], record { left = n; context = true })
accept_next false true zero = (0, 1 ∷ [], record { left = 0; context = true })
accept_next false true (suc n) = (continue_needed, 1 ∷ [], record { left = suc n; context = true })
accept_next true true n = (2 ^ 31, [], record { left = n; context = true })
accept_next false false n = (2 ^ 31, [], record { left = n; context = false })

abbrev receive_next : ℕ → Bool → Option Bytes × Talk
receive_next zero context = (none, record { left = 0; context = context })
receive_next (suc n) context = (some [], record { left = n; context = context })

abbrev counting : Provider Talk
counting = record {
  acquire_outbound = λ s. (0, s);
  acquire_inbound = λ s. (0, s);
  initialize_context = λ input room s. (0, [], s);
  accept_context = λ new input room s. accept_next new s.context s.left;
  complete_token = λ token s. (0, token, record { left = 0; context = true });
}

abbrev peer : Link Talk
peer = record {
  send_msg = λ socket token s. (true, s);
  receive_msg = λ socket room s. receive_next s.left s.context;
}

abbrev is_done : Talk → Bool
is_done s = (s.left == 0) && s.context

abbrev three_messages : Talk
three_messages = record { left = 3; context = false }
