-- ===== src/Python/Base64/Bytes.antt =====
-- What the decoder gives out are bytes.
use fastapi_claude_voice_age.Base.{
  ◌≡◌, ℕ, ◌+◌, ◌<◌, inl, inr, String, some, List, [], ◌∷◌, ◌++◌, eqb, leb, arith, All, Bool-cases,
  All-append, Option-cases, eqb→eq,
}
use fastapi_claude_voice_age.Base.Text.{codes}
use fastapi_claude_voice_age.Python.{Result, ok, raise, ◌>>=◌}
use fastapi_claude_voice_age.Python.Base64.{
  sextet, Reader, Feed, done, goes, start, taken, padded, feed, scan, is_ascii, b64decode,
}

IsByte : ℕ → Type 0
IsByte b = b < 256

-- The bits that a reader holds: none, six, four or two.
record IsReader (r : Reader) : Type 0 where
  one : r.quad ≡ 1 → r.left < 64
  two : r.quad ≡ 2 → r.left < 16
  three : r.quad < 4 × (r.quad ≡ 3 → r.left < 4)

sextet_small : (c v : ℕ) → sextet c ≡ some v → v < 64
unfolding sextet
sextet_small c v h = ground (arith, h)

IsFeed : Feed → Type 0
IsFeed done = Unit {0}
IsFeed (goes out r) = All IsByte out × IsReader r

start-IsReader : IsReader start
start-IsReader = record {
  one = λ h. omega (arith, h);
  two = λ h. omega (arith, h);
  three = (omega arith, λ h. omega (arith, h));
}

taken-IsFeed : (v : ℕ) (r : Reader) → v < 64 → IsReader r → IsFeed (taken v r)
unfolding taken IsFeed IsByte
taken-IsFeed v r h i = elim (Bool-cases (eqb r.quad 0)) [
  | inl e0 ↦
      rw (e0, taken)
        (
          tt,
          record {
            one = λ q. h;
            two = λ q. omega (arith, q);
            three = (omega arith, λ q. omega (arith, q));
          },
        )
  | inr e0 ↦ elim (Bool-cases (eqb r.quad 1)) [
    | inl e1 ↦
        let small : r.left < 64 = i.one (eqb→eq r.quad 1 e1) in
        rw (e0, e1, taken)
          (
            (omega (arith, h, small), tt),
            record {
              one = λ q. omega (arith, q);
              two = λ q. omega arith;
              three = (omega arith, λ q. omega (arith, q));
            },
          )
    | inr e1 ↦ elim (Bool-cases (eqb r.quad 2)) [
      | inl e2 ↦
          let small : r.left < 16 = i.two (eqb→eq r.quad 2 e2) in
          rw (e0, e1, e2, taken)
            (
              (omega (arith, h, small), tt),
              record {
                one = λ q. omega (arith, q);
                two = λ q. omega (arith, q);
                three = (omega arith, λ q. omega arith);
              },
            )
      | inr e2 ↦
          let below : r.quad < 4 = i.three.0 in
          let last : r.quad ≡ 3 = ground (arith, e0, e1, e2, below) in
          let small : r.left < 4 = i.three.1 last in
          rw (e0, e1, e2, taken) ((omega (arith, h, small), tt), start-IsReader)
    ]
  ]
]

padded-IsFeed : (r : Reader) → IsReader r → IsFeed (padded r)
unfolding padded IsFeed
padded-IsFeed r i = elim (Bool-cases (leb 2 r.quad)) [
  | inl e ↦ elim (Bool-cases (leb 4 (r.quad + (r.pads + 1)))) [
    | inl f ↦ rw (e, f, padded) tt
    | inr f ↦ rw (e, f, padded) (tt, record { one = i.one; two = i.two; three = i.three })
  ]
  | inr e ↦ rw (e, padded) (tt, i)
]

feed-IsFeed : (c : ℕ) (r : Reader) → IsReader r → IsFeed (feed c r)
unfolding feed IsFeed
feed-IsFeed c r i = elim (Bool-cases (eqb c 61)) [
  | inl e ↦ rw (e, feed) (padded-IsFeed r i)
  | inr e ↦ elim (Option-cases (sextet c)) [
    | inl f ↦ rw (e, f, feed) (tt, i)
    | inr (v, f) ↦ rw (e, f, feed) (taken-IsFeed v r (sextet_small c v f) i)
  ]
]

Gives : Result (List ℕ) → Type 0
Gives (ok bs) = All IsByte bs
Gives (raise e) = Unit {0}

after :
    (out : List ℕ) (o : Result (List ℕ))
    → All IsByte out
    → Gives o
    → Gives (o >>= λ bs. ok (out ++ bs))
unfolding Gives
after out (ok bs) h g = All-append IsByte out bs h g
after out (raise e) h g = tt

fed :
    (f : Feed) (cs : List ℕ)
    → IsFeed f
    → ((r : Reader) → IsReader r → Gives (scan cs r))
    → Gives (elim f [ done ↦ ok [] | goes out r ↦ (scan cs r >>= λ bs. ok (out ++ bs)) ])
unfolding Gives IsFeed
fed done cs h rest = tt
fed (goes out r) cs h rest = after out (scan cs r) h.0 (rest r h.1)

scan_bytes : (cs : List ℕ) (r : Reader) → IsReader r → Gives (scan cs r)
unfolding scan Gives
scan_bytes [] r i = elim (Bool-cases (eqb r.quad 0)) [
  | inl e ↦ rw (e, scan) tt
  | inr e ↦ rw (e, scan) tt
]
scan_bytes (c ∷ cs) r i = fed (feed c r) cs (feed-IsFeed c r i) (scan_bytes cs)

gives_bytes : (o : Result (List ℕ)) (bs : List ℕ) → Gives o → o ≡ ok bs → All (λ b. b < 256) bs
unfolding Gives IsByte
gives_bytes o bs g h = rw h at g

pub b64decode_bytes : (s : String) (bs : List ℕ) → b64decode s ≡ ok bs → All (λ b. b < 256) bs
unfolding b64decode Gives
b64decode_bytes s bs h = elim (Bool-cases (is_ascii (codes s))) [
  | inl e ↦
      gives_bytes (scan (codes s) start) bs (scan_bytes (codes s) start start-IsReader)
        (rw (e, b64decode) at h)
  | inr e ↦ ground (arith, e, h)
]
