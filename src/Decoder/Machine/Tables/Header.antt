-- ===== src/Decoder/Machine/Tables/Header.antt =====
-- decoder/machine.go: the switches of states 1 to 14: the header name, the number and the white space behind it.
use heplify.Common.{[], ◌∷◌}
use heplify.Decoder.Machine.Labels.{
  Switch, on, within, st, tr12, tr13, tr14, tr15, tr16, tr17, tr18, tr19, tr20, tr21, tr22,
}

abbrev pub case_1 : Switch
case_1 = (on 67 (st 2) ∷ on 99 (st 2) ∷ [], st 1)

abbrev pub case_2 : Switch
case_2 = (on 67 (st 2) ∷ on 83 (st 3) ∷ on 99 (st 2) ∷ on 115 (st 3) ∷ [], st 1)

abbrev pub case_3 : Switch
case_3 = (on 67 (st 2) ∷ on 69 (st 4) ∷ on 99 (st 2) ∷ on 101 (st 4) ∷ [], st 1)

abbrev pub case_4 : Switch
case_4 = (on 67 (st 2) ∷ on 81 (st 5) ∷ on 99 (st 2) ∷ on 113 (st 5) ∷ [], st 1)

abbrev pub case_5 : Switch
case_5 = (on 9 (st 5) ∷ on 32 (st 5) ∷ on 58 (st 6) ∷ on 67 (st 2) ∷ on 99 (st 2) ∷ [], st 1)

abbrev pub case_6 : Switch
case_6 = (
  on 9 (st 6)
      ∷ on 13 (st 7)
      ∷ on 32 (st 6)
      ∷ on 67 (st 2)
      ∷ on 99 (st 2)
      ∷ within 48 57 (st 10)
      ∷ [],
  st 1,
)

abbrev pub case_7 : Switch
case_7 = (on 10 (st 8) ∷ on 67 (st 2) ∷ on 99 (st 2) ∷ [], st 1)

abbrev pub case_8 : Switch
case_8 = (on 9 (st 9) ∷ on 32 (st 9) ∷ on 67 (st 2) ∷ on 99 (st 2) ∷ [], st 1)

abbrev pub case_9 : Switch
case_9 =
    (on 9 (st 9) ∷ on 32 (st 9) ∷ on 67 (st 2) ∷ on 99 (st 2) ∷ within 48 57 (st 10) ∷ [], st 1)

abbrev pub case_10 : Switch
case_10 = (
  on 9 (st 11)
      ∷ on 13 (st 12)
      ∷ on 32 (st 11)
      ∷ on 67 (st 2)
      ∷ on 99 (st 2)
      ∷ within 48 57 (st 10)
      ∷ [],
  st 1,
)

abbrev pub case_11 : Switch
case_11 = (
  on 9 (st 11)
      ∷ on 13 (st 12)
      ∷ on 32 (st 11)
      ∷ on 65 tr12
      ∷ on 66 tr13
      ∷ on 67 tr14
      ∷ on 73 tr15
      ∷ on 77 tr16
      ∷ on 78 tr17
      ∷ on 79 tr18
      ∷ on 80 tr19
      ∷ on 82 tr20
      ∷ on 83 tr21
      ∷ on 85 tr22
      ∷ on 99 (st 2)
      ∷ [],
  st 1,
)

abbrev pub case_12 : Switch
case_12 = (on 10 (st 13) ∷ on 67 (st 2) ∷ on 99 (st 2) ∷ [], st 1)

abbrev pub case_13 : Switch
case_13 = (on 9 (st 14) ∷ on 32 (st 14) ∷ on 67 (st 2) ∷ on 99 (st 2) ∷ [], st 1)

abbrev pub case_14 : Switch
case_14 = (
  on 9 (st 14)
      ∷ on 32 (st 14)
      ∷ on 65 tr12
      ∷ on 66 tr13
      ∷ on 67 tr14
      ∷ on 73 tr15
      ∷ on 77 tr16
      ∷ on 78 tr17
      ∷ on 79 tr18
      ∷ on 80 tr19
      ∷ on 82 tr20
      ∷ on 83 tr21
      ∷ on 85 tr22
      ∷ on 99 (st 2)
      ∷ [],
  st 1,
)
