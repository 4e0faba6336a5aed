-- ===== src/Syscall/Tests.antt =====
-- System call arguments of a small process.
use assignment1_cs.Base.{
  ◌+◌, ◌-◌, ◌≡◌, ◌≤◌, ◌<◌, ◌^◌, ◌↔◌, refl, some, arith, none, if◌then◌else◌, ◌==◌, leb,
}
use assignment1_cs.Syscall.{User, fetchint, fetchstr, scan, argint, argptr, argstr}
use assignment1_cs.Syscall.Bounds.{argptr_iff, argptr_negative}

-- The stack pointer is 80; the words there are a return address and the arguments 16 and 1. The
-- bytes from 16 to 19 are "hey" and its zero.
abbrev user : User
user = record {
  sz = 96;
  esp = 80;
  memory = λ a.
      if a == 84
      then 16
      else if a == 88
      then 1
      else if leb 16 a
      then (if leb a 18 then 104 else 0)
      else 7;
}

argint_example : argint user 0 ≡ some 16
unfolding argint fetchint
argint_example = refl

argptr_outside : argptr user 0 81 ≡ none
unfolding argptr argint fetchint
argptr_outside = refl

argstr_hey : argstr user 0 ≡ some (16, 3)
unfolding argstr argint fetchint fetchstr scan
argstr_hey = refl

argptr_iff_example :
    (argptr user 0 80 ≡ some 16) ↔ ((argint user 0 ≡ some 16) × (16 < 96) × (16 + 80 ≤ 96))
argptr_iff_example = argptr_iff user 0 80 16 (omega arith) (omega arith)

argptr_negative_example : argptr user 0 (2 ^ 32 - 1) ≡ some 16
argptr_negative_example =
    argptr_negative user 0 1 16 (omega arith) (omega arith) (omega arith) (omega arith)
      argint_example
