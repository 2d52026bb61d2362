-- ===== src/Tests/Wire.antt =====
-- Byte order and numbers in text.
use controller_project.Base.{◌≡◌, arith}
use controller_project.Wire.Decimal.{u16tostr, strtou32, strtou32-u16tostr}

port_in_text : strtou32 (u16tostr 5001) ≡ 5001
port_in_text = strtou32-u16tostr 5001 (omega arith)
