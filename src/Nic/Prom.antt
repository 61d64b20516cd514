-- ===== src/Nic/Prom.antt =====
-- tools/exe-harness/rtl8019-model.js, lines 13-40: the 32-byte PROM image.
use sprinter_rtl8019a.Base.{
  ℕ, zero, suc, ◌*◌, ◌+◌, ◌%◌, List, ◌==◌, if◌then◌else◌, bit_xor, get_or, set, replicate,
}

-- `promLayout`
pub data Layout : Type 0 where
  direct doubled unknown : Layout

-- `for (let i = 0; i < n; i++) bytes[i] = mac[i]`
pub copy_mac : ℕ → List ℕ → List ℕ → List ℕ
copy_mac zero mac bytes = bytes
copy_mac (suc n) mac bytes = set (copy_mac n mac bytes) n (get_or mac n 0)

-- `for (let i = 0; i < n; i++) { bytes[2 * i] = logical[i]; bytes[2 * i + 1] = logical[i]; }`
pub double_bytes : ℕ → List ℕ → List ℕ → List ℕ
double_bytes zero logical bytes = bytes
double_bytes (suc n) logical bytes =
    set (set (double_bytes n logical bytes) (2 * n) (get_or logical n 0)) (2 * n + 1)
      (get_or logical n 0)

pub build_prom : List ℕ → Layout → ℕ → List ℕ
build_prom mac Layout.doubled sig_byte =
    double_bytes 16 (set (set (copy_mac 6 mac (replicate 16 0)) 14 sig_byte) 15 sig_byte)
      (replicate 32 0)
build_prom mac Layout.unknown sig_byte =
    let bytes = set (set (copy_mac 6 mac (replicate 32 0)) 0x0e 0) 0x0f 0 in
    let first = get_or mac 0 0 in
    let second = get_or mac 1 0 in
    set (set bytes 0 first) 1 (if first == second then bit_xor second 0x01 % 256 else second)
build_prom mac Layout.direct sig_byte =
    set (set (copy_mac 6 mac (replicate 32 0)) 0x0e sig_byte) 0x0f sig_byte
