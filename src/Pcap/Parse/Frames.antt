-- ===== src/Pcap/Parse/Frames.antt =====
-- Packets built from their fields, and what the parser reads from them.
use flowsketch.Base.{ℕ, ◌+◌, ◌/◌, ◌%◌, ◌≡◌, refl, ap, List, [], ◌∷◌, length, take}

-- A UDP datagram, whose length field is its length.
pub udp : ℕ → ℕ → List ℕ → List ℕ
udp sp dp payload =
    sp / 256
    ∷ sp % 256
    ∷ dp / 256
    ∷ dp % 256
    ∷ (8 + length payload) / 256
    ∷ (8 + length payload) % 256
    ∷ 0
    ∷ 0
    ∷ payload

pub take_all : (xs : List ℕ) → take (length xs) xs ≡ xs
take_all [] = refl
take_all (x ∷ xs) = ap (λ l. x ∷ l) (take_all xs)

-- An IPv4 packet with a header of 20 bytes around it.
pub ipv4 : ℕ → ℕ → ℕ → ℕ → ℕ → ℕ → ℕ → ℕ → List ℕ → List ℕ
ipv4 a b c d e f g h segment =
    69
    ∷ 0
    ∷ (20 + length segment) / 256
    ∷ (20 + length segment) % 256
    ∷ 0
    ∷ 0
    ∷ 0
    ∷ 0
    ∷ 64
    ∷ 17
    ∷ 0
    ∷ 0
    ∷ a
    ∷ b
    ∷ c
    ∷ d
    ∷ e
    ∷ f
    ∷ g
    ∷ h
    ∷ segment

pub record Mac : Type 0 where
  pub o1 : ℕ
  pub o2 : ℕ
  pub o3 : ℕ
  pub o4 : ℕ
  pub o5 : ℕ
  pub o6 : ℕ

-- The Ethernet frame of an IPv4 packet.
pub ethernet : Mac → Mac → List ℕ → List ℕ
ethernet x y packet =
    x.o1 ∷ x.o2 ∷ x.o3 ∷ x.o4 ∷ x.o5 ∷ x.o6 ∷ y.o1 ∷ y.o2 ∷ y.o3 ∷ y.o4 ∷ y.o5 ∷ y.o6 ∷ 8 ∷ 0
    ∷ packet
