-- ===== src/Examples/Primitives.antt =====
-- Concrete functions in place of the crates that crates/core/crypto/src calls. A ciphertext is 16 equal
-- bytes made from the key, the nonce and the associated data, and then the message; in place of
-- base64, each byte is that many letters "a" and a letter "b".
use Prim.Native.Char.{code}
use Prim.Native.String.{[] as nil, ◌∷◌ as cons}
use ryu_rooms.Prelude.{
  ℕ, zero, suc, ◌+◌, ◌%◌, ◌≡◌, refl, ap, sym, ◌∙◌, arith, String, false, Option, some, [], ◌∷◌,
  ◌++◌, length, length-append, eqb, if◌then◌else◌,
}
use ryu_rooms.Text.{any_char, is_whitespace}
use ryu_rooms.Text.Trim.{trim_of_none}
use ryu_rooms.Bytes.{Bytes, strip}
use ryu_rooms.Bytes.Slices.{strip_append}
use ryu_rooms.Bytes.Utf8.{prepend}
use ryu_rooms.Content.{Primitives, IsLawful}
use ryu_rooms.Examples.{decimal}

unfoldable pub sum : Bytes → ℕ
sum [] = 0
sum (b ∷ bs) = b + sum bs

unfoldable pub replicate : ℕ → ℕ → Bytes
replicate zero b = []
replicate (suc n) b = b ∷ replicate n b

unfoldable pub tag : (key nonce aad : Bytes) → Bytes
tag key nonce aad = replicate 16 ((sum key + sum nonce + sum aad) % 16)

unfoldable pub run : ℕ → String → String
run zero s = cons "b" s
run (suc n) s = cons "a" (run n s)

unfoldable pub letters : Bytes → String
unfolding run
letters [] = nil
letters (b ∷ bs) = run b (letters bs)

unfoldable pub numbers : ℕ → String → Option Bytes
numbers n nil = some []
numbers n (cons c s) =
    let more = numbers (n + 1) s in
    let next = prepend n (numbers 0 s) in if eqb (code c) b'a' then more else next

numbers-run : (n m : ℕ) (s : String) → numbers n (run m s) ≡ prepend (n + m) (numbers 0 s)
unfolding numbers run
numbers-run n zero s = ground arith
numbers-run n (suc m) s = ground (arith, numbers-run (n + 1) m s)

numbers-letters : (bs : Bytes) → numbers 0 (letters bs) ≡ some bs
unfolding letters
numbers-letters [] = unfold numbers in refl
numbers-letters (b ∷ bs) = numbers-run 0 b (letters bs) ∙ rw (numbers-letters bs) (ground arith)

any_char-run : (m : ℕ) (s : String) → any_char is_whitespace (run m s) ≡ any_char is_whitespace s
unfolding any_char run is_whitespace
any_char-run zero s = refl
any_char-run (suc m) s = any_char-run m s

any_char-letters : (bs : Bytes) → any_char is_whitespace (letters bs) ≡ false
unfolding letters
any_char-letters [] = unfold any_char in refl
any_char-letters (b ∷ bs) = any_char-run b (letters bs) ∙ any_char-letters bs

length-replicate : (n b : ℕ) → length (replicate n b) ≡ n
unfolding replicate
length-replicate zero b = omega arith
length-replicate (suc n) b = omega (arith, length-replicate n b)

some_inj : {a b : Bytes} → some a ≡ some b → a ≡ b
some_inj {a} {b} h = cc

abbrev pub toy : Primitives
toy = record {
  hkdf = λ salt ikm info. sum info ∷ ikm;
  hmac = λ key message. key;
  sha256 = λ bs. bs;
  hex = λ bs. decimal 20 (sum bs);
  encrypt = λ key nonce message aad. some (tag key nonce aad ++ message);
  decrypt = λ key nonce ciphertext aad. strip ciphertext (tag key nonce aad);
  b64_encode = letters;
  b64_decode = numbers 0;
  fill_bytes = λ n k. replicate k n;
}

pub toy-IsLawful : IsLawful toy
unfolding tag
toy-IsLawful = record {
  decrypt-encrypt = λ key nonce message aad ciphertext h.
      rw (sym (some_inj h))
        (strip_append (replicate 16 ((sum key + sum nonce + sum aad) % 16)) message);
  length-encrypt = λ key nonce message aad ciphertext h.
      let t = replicate 16 ((sum key + sum nonce + sum aad) % 16) in
      omega (
        arith,
        length-append t message,
        length-replicate 16 ((sum key + sum nonce + sum aad) % 16),
        ap length (some_inj h),
      );
  b64_decode-encode = numbers-letters;
  trim-b64_encode = λ bs. trim_of_none (letters bs) (any_char-letters bs);
  length-fill_bytes = λ n k. length-replicate k n;
}
